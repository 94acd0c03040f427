-- ===== src/UserPaging/Area.antt =====
-- kernel/task_paging.c: the pages of whole areas, and page faults. `start` and `boundary` are those
-- of `get_page`.
use zelda_os.Prelude.{
  ℕ, zero, suc, ◌+◌, ◌-◌, ◌*◌, ◌/◌, ◌%◌, ◌^◌, Bool, true, false, not, ◌&&◌, ◌||◌, Option, none,
  some, List, ltb, leb, ◌==◌, if◌then◌else◌, Outcome, done, panic,
}
use zelda_os.Status.{
  Status, ok, err_out_of_memory, err_out_of_resource, err_invalid_arg, err_partial, err_not_found,
  is_ok,
}
use zelda_os.Links.{Ptr, null}
use zelda_os.UserVma.{VmArea, Areas, area_end, search_userspace_vma_by_addr}
use zelda_os.KernelVma.{page_size, userspace_bottom}
use zelda_os.Paging.{Pages, get_page, free_page}
use zelda_os.Paging.Tables.{
  Machine, present, pg_frame, create_pte32, pd_index, store, pde_at, pte_at,
}
use zelda_os.UserPaging.{Store, vma_in_task, userspace_map_page, userspace_evict_page}

abbrev pub Result : Type 0
Result = Option (Outcome (Status × Store))

-- the pages of an area, more rounds than the loops over them make
abbrev pub area_rounds : VmArea → ℕ
area_rounds v = suc (v.length / page_size + 1)

module _ (start boundary : ℕ) where
  -- the frame for an address of an area, and 0 if there is none
  unfoldable pub frame_for : VmArea → (addr : ℕ) → Pages → Option (Outcome (ℕ × Pages))
  frame_for v addr s =
      if v.exact
      then some (done ((v.phy_addr + addr + 2 ^ 64 - v.virt_addr) % 2 ^ 32, s))
      else get_page start boundary s

  -- the entry for the frame, or the frame given back
  unfoldable pub map_frame : (dir : ℕ) → VmArea → (addr frame : ℕ) → Store → Result
  unfolding userspace_map_page free_page
  map_frame dir v addr frame s =
      elim (userspace_map_page dir (addr % 2 ^ 32) frame v.write_permission v.page_writethrough
        v.page_cachedisable s.machine) [
          | none ↦ none
          | some panic ↦ some panic
          | some (done (rc, m)) ↦ some (
              done (
                rc,
                record {
                  machine = m;
                  pages = if is_ok rc || v.exact then s.pages else free_page frame s.pages;
                },
              ))
        ]

  -- the loop of `userspace_map_vm_area`
  unfoldable pub map_from : ℕ → (dir : ℕ) → VmArea → (addr : ℕ) → (partial : Bool) → Store → Result
  map_from zero dir v addr partial s = none
  map_from (suc fuel) dir v addr partial s =
      let failed = if partial then err_partial else err_out_of_memory in
      elim (ltb addr (area_end v)) [
        | false ↦ some (done (ok, s))
        | true ↦ elim (frame_for v addr s.pages) [
          | none ↦ none
          | some panic ↦ some panic
          | some (done (frame, pages)) ↦ elim (not v.exact && frame == 0) [
            | true ↦ some (done (failed, record s { pages = pages }))
            | false ↦ elim (map_frame dir v addr frame (record s { pages = pages })) [
              | none ↦ none
              | some panic ↦ some panic
              | some (done (rc, t)) ↦ elim (is_ok rc) [
                | true ↦ map_from fuel dir v ((addr + page_size) % 2 ^ 64) true t
                | false ↦ some (done (failed, t))
              ]
            ]
          ]
        ]
      ]

  unfoldable pub userspace_map_vm_area : (dir : ℕ) → Areas → List Ptr → (vma : Ptr) → Store → Result
  userspace_map_vm_area dir areas vma_list vma s =
      if vma_in_task vma_list vma
      then map_from (area_rounds (areas vma)) dir (areas vma) (areas vma).virt_addr false s
      else some (done (err_invalid_arg, s))

  -- `user_mode` is the ASSERT that the task runs at DPL_3.
  unfoldable pub handle_userspace_page_fault :
      (dir : ℕ) → (user_mode : Bool) → Areas → List Ptr → (linear_addr : ℕ) → Store → Result
  handle_userspace_page_fault dir user_mode areas vma_list linear_addr s =
      let vma = search_userspace_vma_by_addr areas vma_list linear_addr in
      let v = areas vma in
      elim (not (dir == 0) && user_mode && leb userspace_bottom linear_addr) [
        | false ↦ some panic
        | true ↦ elim (vma == null) [
          | true ↦ some (done (err_not_found, s))
          | false ↦ elim (frame_for v linear_addr s.pages) [
            | none ↦ none
            | some panic ↦ some panic
            | some (done (frame, pages)) ↦ elim (not v.exact && frame == 0) [
              | true ↦ some (done (err_out_of_resource, record s { pages = pages }))
              | false ↦ map_frame dir v linear_addr frame (record s { pages = pages })
            ]
          ]
        ]
      ]

-- the loop of `userspace_evict_vma`
unfoldable pub evict_from : ℕ → (dir : ℕ) → Areas → List Ptr → VmArea → (addr : ℕ) → Store → Result
evict_from zero dir areas vma_list v addr s = none
evict_from (suc fuel) dir areas vma_list v addr s =
    let here = addr % 2 ^ 32 in
    let next = (addr + page_size) % 2 ^ 64 in
    let reclaim =
      leb (area_end v) next || not (pd_index here == pd_index ((here + page_size) % 2 ^ 32)) in
    elim (ltb addr (area_end v)) [
      | false ↦ some (done (ok, s))
      | true ↦ elim (userspace_evict_page dir areas vma_list here reclaim s) [
        | panic ↦ some panic
        | done (rc, t) ↦ evict_from fuel dir areas vma_list v next t
      ]
    ]

unfoldable pub userspace_evict_vma : (dir : ℕ) → Areas → List Ptr → (vma : Ptr) → Store → Result
userspace_evict_vma dir areas vma_list vma s =
    if not (vma_in_task vma_list vma)
    then some (done (err_not_found, s))
    else if (areas vma).kernel_vma
    then some (done (err_invalid_arg, s))
    else evict_from (area_rounds (areas vma)) dir areas vma_list (areas vma) (areas vma).virt_addr s

-- the loop of `userspace_remap_vm_area`
unfoldable pub remap_from : ℕ → (dir : ℕ) → VmArea → (addr : ℕ) → Machine → Option (Outcome Machine)
unfolding store
remap_from zero dir v addr m = none
remap_from (suc fuel) dir v addr m =
    let at = pte_at m.memory dir addr in
    let pte =
      create_pte32 v.write_permission 1 v.page_writethrough v.page_cachedisable
        (pg_frame (m.memory at) * 4096) in
    let mapped =
      not (present (m.memory (pde_at dir addr)) == 0) && not (present (m.memory at) == 0) in
    elim (ltb addr (area_end v)) [
      | false ↦ some (done m)
      | true ↦ elim mapped [
        | false ↦ some panic
        | true ↦
            remap_from fuel dir v ((addr + page_size) % 2 ^ 64)
              (record m { memory = store m.memory at pte })
      ]
    ]

unfoldable pub userspace_remap_vm_area : (dir : ℕ) → VmArea → Machine → Option (Outcome Machine)
unfolding remap_from
userspace_remap_vm_area dir v m = remap_from (area_rounds v) dir v v.virt_addr m
