-- ===== src/UserVma.antt =====
-- kernel/userspace_vma.c: the areas of a task's address space. The list of the areas is the sequence
-- of their addresses in the order in which LIST_FOREACH visits them; fields are `uint64_t`, and a
-- length of type `int` is what it is converted to.
pub mod Search
pub mod Scan
pub mod Extend
mod Tests
use zelda_os.Prelude.{
  ℕ, ◌+◌, ◌-◌, ◌%◌, ◌^◌, Bool, true, false, ◌&&◌, Option, none, some, List, [], ◌∷◌, ltb, leb, ◌==◌,
  if◌then◌else◌,
}
use zelda_os.Status.{Status, ok, err_invalid_arg}
use zelda_os.Links.{Ptr, null}
use zelda_os.CStr.{strcmp}

pub record VmArea : Type 0 where
  pub name : List ℕ
  pub kernel_vma : Bool
  pub exact : Bool
  pub write_permission : ℕ
  pub page_writethrough : ℕ
  pub page_cachedisable : ℕ
  pub virt_addr : ℕ
  pub phy_addr : ℕ
  pub length : ℕ

abbrev pub Areas : Type 0
Areas = Ptr → VmArea

abbrev pub area_end : VmArea → ℕ
area_end v = (v.virt_addr + v.length) % 2 ^ 64

-- VMA_EXTEND_UPWARD and VMA_EXTEND_DOWNWARD, the only values that pass the ASSERT
pub data Direction : Type 0 where
  upward downward : Direction

-- `last` is the value of `_vma` when the walk comes to the next area.
pub search_name : Areas → List ℕ → (last : Ptr) → List Ptr → Ptr
unfolding strcmp
search_name areas vma_name last [] = last
search_name areas vma_name last (x ∷ xs) =
    let rest = search_name areas vma_name x xs in
    let (b, c) = strcmp vma_name (areas x).name in if b == c then x else rest

pub search_userspace_vma : Areas → List Ptr → (vma_name : List ℕ) → Ptr
unfolding search_name
search_userspace_vma areas xs vma_name = search_name areas vma_name null xs

unfoldable pub search_userspace_vma_by_addr : Areas → List Ptr → (vaddr : ℕ) → Ptr
search_userspace_vma_by_addr areas [] vaddr = null
search_userspace_vma_by_addr areas (x ∷ xs) vaddr =
    let rest = search_userspace_vma_by_addr areas xs vaddr in
    if leb (areas x).virt_addr vaddr && ltb vaddr (area_end (areas x)) then x else rest

abbrev pub put_area : Areas → Ptr → VmArea → Areas
put_area areas p v a = if a == p then v else areas a

-- `__extend_vm_area`
pub grow_vm_area : VmArea → Direction → ℕ → VmArea
grow_vm_area v upward len = record v { length = (v.length + len) % 2 ^ 64 }
grow_vm_area v downward len = record v {
  virt_addr = (v.virt_addr + 2 ^ 64 - len) % 2 ^ 64;
  phy_addr = if v.exact then (v.phy_addr + 2 ^ 64 - len) % 2 ^ 64 else v.phy_addr;
  length = (v.length + len) % 2 ^ 64;
}

pub extended_start : VmArea → Direction → ℕ → ℕ
extended_start v upward len = v.virt_addr
extended_start v downward len = (v.virt_addr + 2 ^ 64 - len) % 2 ^ 64

pub extended_end : VmArea → Direction → ℕ → ℕ
extended_end v upward len = (v.virt_addr + v.length + len) % 2 ^ 64
extended_end v downward len = (v.virt_addr + v.length) % 2 ^ 64

abbrev pub straddles : VmArea → ℕ → Bool
straddles v a = ltb v.virt_addr a && ltb a (area_end v)

-- the loop of `extend_vm_area`: `none` if it returns early, else whether the target was met
pub scan_areas : Areas → (target start stop : ℕ) → Bool → List Ptr → Option Bool
scan_areas areas target start stop found [] = some found
scan_areas areas target start stop found (x ∷ xs) =
    let met = scan_areas areas target start stop true xs in
    let passed = scan_areas areas target start stop found xs in
    if x == target
    then met
    else if straddles (areas x) start
    then none
    else if straddles (areas x) stop
    then none
    else passed

pub extend_vm_area : Areas → List Ptr → (target : Ptr) → Direction → ℕ → Status × Areas
unfolding grow_vm_area extended_start extended_end scan_areas
extend_vm_area areas xs target direction len =
    let start = extended_start (areas target) direction len in
    let stop = extended_end (areas target) direction len in
    elim (scan_areas areas target start stop false xs) [
      | none ↦ (err_invalid_arg, areas)
      | some false ↦ (err_invalid_arg, areas)
      | some true ↦ (ok, put_area areas target (grow_vm_area (areas target) direction len))
    ]
