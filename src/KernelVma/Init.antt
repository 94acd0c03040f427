-- ===== src/KernelVma/Init.antt =====
-- `kernel_vma_init`: the areas that the kernel starts with. A name is its bytes.
use zelda_os.Prelude.{
  ℕ, ◌+◌, ◌-◌, ◌%◌, ◌^◌, Bool, true, false, Option, none, some, List, [], ◌∷◌, if◌then◌else◌,
  length, replicate, Outcome, done, panic,
}
use zelda_os.Status.{is_ok}
use zelda_os.KernelVma.{KernelVma, Table, no_vma, register_kernel_vma}

-- the fields that the four registrations share
area : (name : List ℕ) → (exact : Bool) → (virt_addr phy_addr length : ℕ) → KernelVma
area name exact virt phy length = record no_vma {
  name = name;
  exact = exact;
  write_permission = true;
  virt_addr = virt;
  phy_addr = phy;
  length = length;
}

abbrev page_space_bottom : ℕ
page_space_bottom = 0x4000000

abbrev page_space_top : ℕ
page_space_top = 0x8000000

abbrev kernel_heap_top : ℕ
kernel_heap_top = 0x1F000000

-- "Low1MB", "KernelImage", "PageInventory" and "KernelHeap"
initial_areas : (sys_mem_start : ℕ) → List KernelVma
unfolding area
initial_areas start =
    area (76 ∷ 111 ∷ 119 ∷ 49 ∷ 77 ∷ 66 ∷ []) true 0 0 0x100000
    ∷ area (75 ∷ 101 ∷ 114 ∷ 110 ∷ 101 ∷ 108 ∷ 73 ∷ 109 ∷ 97 ∷ 103 ∷ 101 ∷ []) true 0x100000
        0x100000 ((start + 2 ^ 32 - 0x100000) % 2 ^ 32)
    ∷ area (80 ∷ 97 ∷ 103 ∷ 101 ∷ 73 ∷ 110 ∷ 118 ∷ 101 ∷ 110 ∷ 116 ∷ 111 ∷ 114 ∷ 121 ∷ []) true
        page_space_bottom page_space_bottom (page_space_top - page_space_bottom)
    ∷ area (75 ∷ 101 ∷ 114 ∷ 110 ∷ 101 ∷ 108 ∷ 72 ∷ 101 ∷ 97 ∷ 112 ∷ []) false page_space_top 0
        (kernel_heap_top - page_space_top)
    ∷ []

module _ {Paging : Type 0} (get_page : Paging → ℕ × Paging)
    (kernel_map_page : Paging
      → (linear phy : ℕ) → (writable writethrough cachedisable : Bool) → Paging) where
  -- each registration is in an ASSERT
  register_all : ℕ → Table → Paging → List KernelVma → Option (Outcome (Table × Paging))
  register_all fuel table s [] = some (done (table, s))
  register_all fuel table s (v ∷ vs) =
      elim (register_kernel_vma get_page kernel_map_page fuel table s v) [
        | none ↦ none
        | some panic ↦ some panic
        | some (done (r, table', s')) ↦
            if is_ok r then register_all fuel table' s' vs else some panic
      ]

  kernel_vma_init : ℕ → (slots sys_mem_start : ℕ) → Paging → Option (Outcome (Table × Paging))
  unfolding register_all initial_areas
  kernel_vma_init fuel slots start s =
      register_all fuel (replicate slots no_vma) s (initial_areas start)
