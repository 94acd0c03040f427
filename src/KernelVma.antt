-- ===== src/KernelVma.antt =====
-- memory/kernel_vma.c: the registry of the areas of the kernel's address space, an array of slots.
-- Addresses and lengths are `uint32_t`. What the code asks of memory/paging.c, `get_page` and
-- `kernel_map_page`, works on a state of its own and is a parameter.
pub mod Search
pub mod Register
pub mod Nearest
pub mod Free
pub mod Map
mod Init
mod Tests
use zelda_os.Prelude.{
  ℕ, zero, suc, ◌+◌, ◌-◌, ◌%◌, ◌^◌, Bool, true, false, not, ◌&&◌, ◌||◌, Option, none, some, List,
  [], ◌∷◌, ltb, leb, ◌==◌, if◌then◌else◌, get_or, set, take, Outcome, done, panic, ◌>>=◌, ◌>>◌,
  ensure,
}
use zelda_os.Status.{Status, ok, err_out_of_resource, err_invalid_arg}
use Prim.Native.Nat.{bit_and}

-- struct kernel_vma; a name is the bytes of its string
pub record KernelVma : Type 0 where
  pub name : List ℕ
  pub present : Bool
  pub exact : Bool
  pub write_permission : Bool
  pub page_writethrough : Bool
  pub page_cachedisable : Bool
  pub premap : Bool
  pub virt_addr : ℕ
  pub phy_addr : ℕ
  pub length : ℕ

abbrev pub Table : Type 0
Table = List KernelVma

abbrev pub end_of : KernelVma → ℕ
end_of v = (v.virt_addr + v.length) % 2 ^ 32

abbrev pub covers : KernelVma → ℕ → Bool
covers v a = leb v.virt_addr a && ltb a (end_of v)

unfoldable pub search_kernel_vma : Table → ℕ → Option KernelVma
search_kernel_vma [] a = none
search_kernel_vma (v ∷ vs) a =
    let rest = search_kernel_vma vs a in
    if not v.present then rest else if covers v a then some v else rest

-- the loop of `register_kernel_vma`: `none` if it returns early, else the index of the free slot
pub free_slot : Table → (idx : ℕ) → (target : Option ℕ) → ℕ → Option (Option ℕ)
free_slot [] idx target a = some target
free_slot (v ∷ vs) idx target a =
    let kept : Option ℕ = elim target [ none ↦ some idx | some t ↦ some t ] in
    let free = free_slot vs (idx + 1) kept a in
    let next = free_slot vs (idx + 1) target a in
    if not v.present then free else if covers v a then none else next

-- what is copied into the slot; `premap` is not among it
abbrev pub filled : KernelVma → KernelVma → KernelVma
filled slot vma = record slot {
  name = take 64 vma.name;
  present = true;
  exact = vma.exact;
  write_permission = vma.write_permission;
  page_writethrough = vma.page_writethrough;
  page_cachedisable = vma.page_cachedisable;
  virt_addr = vma.virt_addr;
  phy_addr = vma.phy_addr;
  length = vma.length;
}

abbrev pub page_size : ℕ
page_size = 4096

abbrev pub page_mask : ℕ
page_mask = page_size - 1

abbrev pub no_vma : KernelVma
no_vma = record {
  name = [];
  present = false;
  exact = false;
  write_permission = false;
  page_writethrough = false;
  page_cachedisable = false;
  premap = false;
  virt_addr = 0;
  phy_addr = 0;
  length = 0;
}

-- `length & PAGE_MASK ? (length & ~PAGE_MASK) + PAGE_SIZE : length`
abbrev pub page_round : ℕ → ℕ
page_round length =
    if bit_and length page_mask == 0
    then length
    else (bit_and length (2 ^ 32 - 1 - page_mask) + page_size) % 2 ^ 32

abbrev pub userspace_bottom : ℕ
userspace_bottom = 0x40000000

-- the inner loop: the start of the nearest area at or above `start`, other than the slot `skip`
pub nearest : (skip start : ℕ) → (idx : ℕ) → Option ℕ → Table → Option ℕ
nearest skip start idx best [] = best
nearest skip start idx best (v ∷ vs) =
    let closer : Bool = elim best [ none ↦ true | some b ↦ leb v.virt_addr b ] in
    let taken = nearest skip start (idx + 1) (some v.virt_addr) vs in
    let passed = nearest skip start (idx + 1) best vs in
    if (idx == skip) || not v.present
    then passed
    else if leb start v.virt_addr && closer
    then taken
    else passed

-- the end of the gap: the nearest area, or the end of the kernel's space
abbrev pub stop_of : Option ℕ → ℕ
stop_of none = userspace_bottom
stop_of (some b) = b

-- the outer loop, from the slot `idx` on; both ends are `uint64_t`
pub free_from : Table → ℕ → (idx : ℕ) → Table → Outcome ℕ
unfolding nearest
free_from table length idx [] = done 0
free_from table length idx (v ∷ vs) =
    let rest = free_from table length (idx + 1) vs in
    let start = end_of v in
    let stop = stop_of (nearest idx start 0 none table) in
    if not v.present
    then rest
    else if stop == 0
    then panic
    else if ltb length ((stop + 2 ^ 64 - start) % 2 ^ 64)
    then done start
    else rest

pub search_free_kernel_virtual_address : Table → ℕ → Outcome ℕ
unfolding free_from
search_free_kernel_virtual_address table length = free_from table (page_round length) 0 table

module _ {Paging : Type 0} (get_page : Paging → ℕ × Paging)
    (kernel_map_page : Paging
      → (linear phy : ℕ) → (writable writethrough cachedisable : Bool) → Paging) where
  frame_of : KernelVma → (linear : ℕ) → Paging → ℕ × Paging
  frame_of v linear s =
      if v.exact then ((linear + 2 ^ 32 - v.virt_addr + v.phy_addr) % 2 ^ 32, s) else get_page s

  map_page_of : KernelVma → (linear : ℕ) → ℕ × Paging → Outcome Paging
  map_page_of v linear (phy, s) = do
    ensure (not (phy == 0))
    done (kernel_map_page s linear phy v.write_permission v.page_writethrough v.page_cachedisable)

  -- the loop over the pages of an area; `none` if it runs out of fuel
  map_pages : ℕ → KernelVma → (linear : ℕ) → Paging → Option (Outcome Paging)
  unfolding frame_of map_page_of
  map_pages zero v linear s = none
  map_pages (suc fuel) v linear s =
      let on = map_pages fuel v ((linear + page_size) % 2 ^ 32) in
      if ltb linear (end_of v)
      then elim (map_page_of v linear (frame_of v linear s)) [
        | done s' ↦ on s'
        | panic ↦ some panic
      ]
      else some (done s)

  pub register_kernel_vma :
      ℕ → Table → Paging → KernelVma → Option (Outcome (Status × Table × Paging))
  unfolding map_pages free_slot
  register_kernel_vma fuel table s vma = elim (free_slot table 0 none vma.virt_addr) [
    | none ↦ some (done (err_invalid_arg, table, s))
    | some none ↦ some (done (err_out_of_resource, table, s))
    | some (some i) ↦
        let slot = filled (get_or table i no_vma) vma in
        if slot.premap
        then elim (map_pages fuel slot slot.virt_addr s) [
          | none ↦ none
          | some panic ↦ some panic
          | some (done s') ↦ some (done (ok, set table i slot, s'))
        ]
        else some (done (ok, set table i slot, s))
  ]

  -- `vma.exact` is set whatever `exact` is.
  pub kernel_map_vma :
      ℕ
      → Table
      → Paging
      → (name : List ℕ) → (exact premap : Bool) → (phy_addr length : ℕ)
      → (write_permission page_writethrough page_cachedisable : Bool)
      → Option (Outcome (ℕ × Table × Paging))
  unfolding register_kernel_vma search_free_kernel_virtual_address
  kernel_map_vma fuel table s name exact premap phy length write through disable =
      elim (search_free_kernel_virtual_address table length) [
        | panic ↦ some panic
        | done a ↦
            if a == 0
            then some (done (0, table, s))
            else elim (register_kernel_vma fuel table s (record no_vma {
              name = take 64 name;
              exact = true;
              write_permission = write;
              page_writethrough = through;
              page_cachedisable = disable;
              premap = premap;
              virt_addr = a;
              phy_addr = phy;
              length = length;
            })) [
              | none ↦ none
              | some panic ↦ some panic
              | some (done (ok, table', s')) ↦ some (done (a, table', s'))
              | some (done (_, table', s')) ↦ some panic
            ]
      ]
