-- ===== src/UserPaging.antt =====
-- kernel/task_paging.c: the pages of a task. `dir` is the task's page directory, and the areas of the
-- task are the sequence of their addresses, as in UserVma. The log is not modelled, nor is
-- `enable_task_paging`, which loads a control register.
pub mod Area
pub mod Enter
pub mod Leave
pub mod Evict
pub mod Frame
pub mod Fault
pub mod Tidy
pub mod Gone
pub mod Progress
pub mod Whole
mod Tests
use zelda_os.Prelude.{
  ℕ, zero, suc, ◌+◌, ◌*◌, Bool, true, false, not, Option, none, some, List, [], ◌∷◌, ltb, ◌==◌,
  if◌then◌else◌, Outcome, done, ◌>>=◌, ◌>>◌, ensure,
}
use zelda_os.Status.{Status, ok, err_out_of_memory, err_invalid_arg, err_not_present, err_busy}
use zelda_os.Links.{Ptr, null}
use zelda_os.UserVma.{Areas, search_userspace_vma_by_addr}
use zelda_os.KernelVma.{userspace_bottom}
use zelda_os.Paging.{Pages, free_page}
use zelda_os.Paging.Base.{get_base_page, free_base_page}
use zelda_os.Paging.Tables.{Machine, present, pg_frame, store, pde_at, pte_at, add_table, enter}

-- the page tables, the pages of the inventory and the other pages
pub record Store : Type 0 where
  pub machine : Machine
  pub pages : Pages

unfoldable pub vma_in_task : List Ptr → (vma : Ptr) → Bool
vma_in_task [] vma = false
vma_in_task (x ∷ xs) vma = let rest = vma_in_task xs vma in if x == vma then true else rest

-- the entry, and OK
abbrev pub enter_ok :
    (dir virt_addr phy_addr write_permission page_writethrough page_cachedisable : ℕ)
    → Machine
    → Outcome (Status × Machine)
enter_ok dir virt_addr phy_addr w wt cd m =
    enter dir 1 virt_addr phy_addr w wt cd m >>= (λ m'. done (ok, m'))

-- PAGE_PERMISSION_USER is 1.
unfoldable pub userspace_map_page :
    (dir virt_addr phy_addr write_permission page_writethrough page_cachedisable : ℕ)
    → Machine
    → Option (Outcome (Status × Machine))
unfolding get_base_page
userspace_map_page dir virt_addr phy_addr w wt cd m = elim (ltb virt_addr userspace_bottom) [
  | true ↦ some (ensure (not (dir == 0)) >> done (err_invalid_arg, m))
  | false ↦ elim (present (m.memory (pde_at dir virt_addr)) == 0) [
    | true ↦ elim (get_base_page m.base) [
      | none ↦ none
      | some (page_table, base) ↦ some (
          ensure (not (dir == 0))
          >> (if page_table == 0
              then done (err_out_of_memory, record m { base = base })
              else enter_ok dir virt_addr phy_addr w wt cd
                  (add_table dir 1 virt_addr page_table base m)))
    ]
    | false ↦ some (ensure (not (dir == 0)) >> enter_ok dir virt_addr phy_addr w wt cd m)
  ]
]

-- the loop of `reclaim_page_table`: whether an entry from the index on is present
unfoldable pub any_present : (ℕ → ℕ) → (page_table idx left : ℕ) → Bool
any_present memory page_table idx zero = false
any_present memory page_table idx (suc left) =
    let rest = any_present memory page_table (idx + 1) left in
    if present (memory (page_table + 4 * idx)) == 0 then rest else true

-- the entries of a page table
unfoldable pub table_entries : ℕ
table_entries = 1024

unfoldable pub reclaim_page_table : (dir virt_addr : ℕ) → Machine → Outcome (Status × Machine)
unfolding any_present table_entries free_base_page store
reclaim_page_table dir virt_addr m =
    let page_table = pg_frame (m.memory (pde_at dir virt_addr)) * 4096 in
    ensure (not (dir == 0))
    >> (if present (m.memory (pde_at dir virt_addr)) == 0
        then done (err_not_present, m)
        else if any_present m.memory page_table 0 table_entries
        then done (err_busy, m)
        else done (
          ok,
          record {
            memory = store m.memory (pde_at dir virt_addr) 0;
            base = free_base_page page_table m.base;
          },
        ))

-- the entry of a page taken out of its table, and the page given back
abbrev pub drop_page : (dir virt_addr : ℕ) → (exact : Bool) → Store → Store
drop_page dir virt_addr exact s =
    let pte = s.machine.memory (pte_at s.machine.memory dir virt_addr) in
    record {
      machine = record {
        memory = store s.machine.memory (pte_at s.machine.memory dir virt_addr) 0;
        base = s.machine.base;
      };
      pages = if exact then s.pages else free_page (pg_frame pte * 4096) s.pages;
    }

unfoldable pub userspace_evict_page :
    (dir : ℕ) → Areas → List Ptr → (virt_addr : ℕ) → Bool → Store → Outcome (Status × Store)
unfolding reclaim_page_table
userspace_evict_page dir areas vma_list virt_addr reclaim s =
    let vma = search_userspace_vma_by_addr areas vma_list virt_addr in
    let memory = s.machine.memory in
    let t = drop_page dir virt_addr (areas vma).exact s in
    ensure (not (dir == 0))
    >> (if vma == null
        then done (err_not_present, s)
        else if present (memory (pde_at dir virt_addr)) == 0
        then done (err_not_present, s)
        else if present (memory (pte_at memory dir virt_addr)) == 0
        then done (err_not_present, s)
        else if reclaim
        then reclaim_page_table dir virt_addr t.machine
          >>= (λ r. done (ok, record t { machine = r.1 }))
        else done (ok, t))
