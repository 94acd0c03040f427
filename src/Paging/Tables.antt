-- ===== src/Paging/Tables.antt =====
-- memory/paging.c: page directories and page tables. Memory is a function from the address of a
-- word of four bytes to the word. The fields of an entry are written out as a sum, of which each is
-- in bits of its own; assigning to a field keeps the bits that it has.
pub mod Words
pub mod Sound
pub mod Walk
pub mod Write
pub mod Extend
pub mod Enter
pub mod Map
mod Tests
use zelda_os.Prelude.{
  ℕ, ◌+◌, ◌-◌, ◌*◌, ◌/◌, ◌%◌, ◌^◌, not, ◌&&◌, Option, none, some, ltb, leb, ◌==◌, if◌then◌else◌,
  Outcome, done, ◌>>=◌, ◌>>◌, ensure,
}
use zelda_os.KernelVma.{page_size}
use zelda_os.Status.{Status, ok, err_not_present}
use zelda_os.Paging.Base.{BasePages, get_base_page}

-- struct pte32 and struct pde32: `present`, and the frame of the page or of the table
abbrev pub present : ℕ → ℕ
present entry = entry % 2

abbrev pub pg_frame : ℕ → ℕ
pg_frame entry = entry / 4096 % 2 ^ 20

abbrev pub create_pte32 :
    (write_permission supervisor_permission page_writethrough page_cachedisable pg_frame : ℕ) → ℕ
create_pte32 w s wt cd frame =
    1 + 2 * (w % 2) + 4 * (s % 2) + 8 * (wt % 2) + 16 * (cd % 2) + 4096 * (frame / 4096 % 2 ^ 20)

abbrev pub create_pde32 :
    (write_permission supervisor_permission page_writethrough page_cachedisable pt_frame : ℕ) → ℕ
create_pde32 w s wt cd frame =
    1 + 2 * (w % 2) + 4 * (s % 2) + 8 * (wt % 2) + 16 * (cd % 2) + 4096 * (frame / 4096 % 2 ^ 20)

-- pd_index and pt_index
abbrev pub pd_index : (virt_addr : ℕ) → ℕ
pd_index virt_addr = virt_addr / 2 ^ 22 % 2 ^ 10

abbrev pub pt_index : (virt_addr : ℕ) → ℕ
pt_index virt_addr = virt_addr / 2 ^ 12 % 2 ^ 10

-- the words of memory, and the pages of the inventory
pub record Machine : Type 0 where
  pub memory : ℕ → ℕ
  pub base : BasePages

unfoldable pub store : (ℕ → ℕ) → (addr v : ℕ) → ℕ → ℕ
store memory addr v a = if a == addr then v else memory a

-- memset((void *)page, 0x0, PAGE_SIZE)
unfoldable pub clear_page : (ℕ → ℕ) → (page : ℕ) → ℕ → ℕ
clear_page memory page a = if leb page a && ltb a (page + page_size) then 0 else memory a

-- the directory entry of an address, and the table entry that it leads to
abbrev pub pde_at : (dir virt_addr : ℕ) → ℕ
pde_at dir virt_addr = dir + 4 * pd_index virt_addr

abbrev pub pte_at : (memory : ℕ → ℕ) → (dir virt_addr : ℕ) → ℕ
pte_at memory dir virt_addr =
    pg_frame (memory (pde_at dir virt_addr)) * 4096 + 4 * pt_index virt_addr

module _ (dir supervisor : ℕ) where
  -- a new table, all of whose entries are 0, in the directory
  abbrev pub add_table : (virt_addr page_table : ℕ) → BasePages → Machine → Machine
  add_table virt_addr page_table base m = record {
    memory =
        store (clear_page m.memory page_table) (pde_at dir virt_addr)
          (create_pde32 1 supervisor 0 0 page_table);
    base = base;
  }

  -- the entry of the page in its table
  unfoldable pub enter :
      (virt_addr phy_addr write_permission page_writethrough page_cachedisable : ℕ)
      → Machine
      → Outcome Machine
  unfolding store
  enter virt_addr phy_addr w wt cd m =
      let pte = create_pte32 w supervisor wt cd phy_addr in
      let memory' = store m.memory (pte_at m.memory dir virt_addr) pte in
      ensure (not (present (m.memory (pde_at dir virt_addr)) == 0))
      >> ensure (not (present pte == 0))
      >> ensure (pg_frame pte * 4096 == phy_addr - phy_addr % 4096)
      >> done (record m { memory = memory' })

module _ (dir : ℕ) where
  -- the page table for an address, made if there is none; PAGE_PERMISSION_SUPERVISOR is 0
  unfoldable pub with_table : (virt_addr : ℕ) → Machine → Option (Outcome Machine)
  unfolding get_base_page
  with_table virt_addr m =
      if present (m.memory (pde_at dir virt_addr)) == 0
      then elim (get_base_page m.base) [
        | none ↦ none
        | some (page_table, base) ↦
            some
              (ensure (not (page_table == 0)) >> done (add_table dir 0 virt_addr page_table base m))
      ]
      else some (done m)

  unfoldable pub kernel_map_page :
      (virt_addr phy_addr write_permission page_writethrough page_cachedisable : ℕ)
      → Machine
      → Option (Outcome Machine)
  unfolding with_table enter
  kernel_map_page virt_addr phy_addr w wt cd m = elim (with_table virt_addr m) [
    | none ↦ none
    | some r ↦ some (r >>= enter dir 0 virt_addr phy_addr w wt cd)
  ]

-- the physical address, or 0
unfoldable pub virt2phy : (memory : ℕ → ℕ) → (page_directory virt_addr : ℕ) → ℕ
virt2phy memory dir virt_addr =
    let pte = memory (pte_at memory dir virt_addr) in
    if present (memory (pde_at dir virt_addr)) == 0
    then 0
    else if present pte == 0
    then 0
    else pg_frame pte * 4096 + virt_addr % 4096

unfoldable pub page_present : (memory : ℕ → ℕ) → (page_directory virt_addr : ℕ) → Status
page_present memory dir virt_addr =
    if present (memory (pde_at dir virt_addr)) == 0
    then err_not_present
    else if present (memory (pte_at memory dir virt_addr)) == 0
    then err_not_present
    else ok
