-- ===== src/UserPaging/Whole.antt =====
-- `userspace_evict_vma` unmaps an area page by page.
use zelda_os.Prelude.{
  ℕ, zero, suc, ◌+◌, ◌*◌, ◌/◌, ◌%◌, ◌^◌, ◌≤◌, ◌<◌, ◌≡◌, refl, sym, subst, inl, inr, Bool, true,
  false, not, ◌||◌, some, List, arith, ltb, leb, ◌==◌, ltb→lt, Bool-cases, Outcome, done, panic,
  Ends, Yields,
}
use zelda_os.Status.{Status, ok, err_invalid_arg, err_not_found}
use zelda_os.Links.{Ptr, null}
use zelda_os.UserVma.{VmArea, Areas, area_end, search_userspace_vma_by_addr}
use zelda_os.KernelVma.{page_size}
use zelda_os.Paging.Tables.{pd_index}
use zelda_os.Paging.Tables.Sound.{IsSound}
use zelda_os.UserPaging.{Store, vma_in_task, userspace_evict_page}
use zelda_os.UserPaging.Area.{evict_from, userspace_evict_vma}
use zelda_os.UserPaging.Gone.{IsGone, userspace_evict_page-IsGone}
use zelda_os.UserPaging.Progress.{IsEvictedTo, search-found, page_end, nothing_yet, one_more}

module _ (dir : ℕ) (areas : Areas) (vma_list : List Ptr) (v : VmArea) (s : Store)
    (aligned : v.virt_addr % 4096 ≡ 0) (room : area_end v ≤ 2 ^ 32) where
  -- what the loop comes to
  abbrev pub AllEvicted : Status × Store → Type 0
  AllEvicted (rc, t) = (rc ≡ ok) × IsEvictedTo dir areas vma_list v s t (page_end v)

  evict_round :
      (fuel addr : ℕ) (t : Store)
      → addr % 4096 ≡ 0
      → v.virt_addr ≤ addr
      → addr ≤ page_end v
      → ((a : ℕ)
          → v.virt_addr ≤ a
          → a < area_end v
          → (search_userspace_vma_by_addr areas vma_list a == null) ≡ false)
      → IsEvictedTo dir areas vma_list v s t addr
      → (addr < area_end v
          → (u : Store) → IsEvictedTo dir areas vma_list v s u (addr + 4096)
          → Yields (evict_from fuel dir areas vma_list v (addr + 4096) u) AllEvicted)
      → Yields (evict_from (suc fuel) dir areas vma_list v addr t) AllEvicted
  unfolding evict_from
  evict_round fuel addr t page from under found so_far on =
      elim (Bool-cases (ltb addr (area_end v))) [
        | inr out ↦
            let high : area_end v ≤ addr = ground arith in
            let at : addr ≡ page_end v = omega arith in
            rw (out, evict_from)
              (refl, subst (λ (x : ℕ). IsEvictedTo dir areas vma_list v s t x) at so_far)
        | inl within ↦
            let low : addr < area_end v = ltb→lt addr (area_end v) within in
            let step : (addr + page_size) % 2 ^ 64 ≡ addr + page_size = omega arith in
            let here : addr % 2 ^ 32 ≡ addr = omega arith in
            let reclaim : Bool =
              leb (area_end v) (addr + page_size)
              || not (pd_index addr == pd_index ((addr + page_size) % 2 ^ 32)) in
            rw (within, evict_from, here, step)
              (by reclaim low step (λ last. ground arith)
                (userspace_evict_page dir areas vma_list addr reclaim t)
                (userspace_evict_page-IsGone dir areas vma_list addr reclaim t so_far.sound
                  (omega arith) (found addr from low)))
      ]
    where
      by :
          (reclaim : Bool)
          → addr < area_end v
          → (addr + page_size) % 2 ^ 64 ≡ addr + page_size
          → (area_end v ≤ addr + 4096 → reclaim ≡ true)
          → (o : Outcome (Status × Store))
          → Ends o (λ r.
            IsGone dir addr
              (areas (search_userspace_vma_by_addr areas vma_list addr)).exact
              reclaim
              t
              r.1)
          → Yields
              (elim o [
                | panic ↦ some panic
                | done (rc, u) ↦
                    evict_from fuel dir areas vma_list v ((addr + page_size) % 2 ^ 64) u
              ])
              AllEvicted
      by reclaim low step last panic h = absurd h
      by reclaim low step last (done (rc, u)) h =
          subst (λ (a : ℕ). Yields (evict_from fuel dir areas vma_list v a u) AllEvicted) (sym step)
            (on low u (
              one_more dir areas vma_list v s aligned room addr reclaim t u page from low last
                so_far h))

  evict_from-AllEvicted :
      (fuel addr : ℕ) (t : Store)
      → addr % 4096 ≡ 0
      → v.virt_addr ≤ addr
      → addr ≤ page_end v
      → ((a : ℕ)
          → v.virt_addr ≤ a
          → a < area_end v
          → (search_userspace_vma_by_addr areas vma_list a == null) ≡ false)
      → IsEvictedTo dir areas vma_list v s t addr
      → area_end v ≤ addr + page_size * fuel
      → Yields (evict_from (suc fuel) dir areas vma_list v addr t) AllEvicted
  evict_from-AllEvicted zero addr t page from under found so_far reach =
      evict_round zero addr t page from under found so_far
        (λ low u next. absurd (omega (arith, low, reach)))
  evict_from-AllEvicted (suc fuel) addr t page from under found so_far reach =
      evict_round (suc fuel) addr t page from under found so_far (λ low u next.
        evict_from-AllEvicted fuel (addr + 4096) u (omega arith) (omega arith) (omega arith) found
          next (omega (arith, reach)))

-- what `userspace_evict_vma` comes to, by its two guards
abbrev pub EvictedVma :
    (missing kernel_vma : Bool)
    → (dir : ℕ) → Areas
    → List Ptr
    → VmArea
    → Store
    → Status × Store
    → Type 0
EvictedVma true kernel_vma dir areas vma_list v s (rc, t) = (rc ≡ err_not_found) × (t ≡ s)
EvictedVma false true dir areas vma_list v s (rc, t) = (rc ≡ err_invalid_arg) × (t ≡ s)
EvictedVma false false dir areas vma_list v s (rc, t) =
    (rc ≡ ok) × IsEvictedTo dir areas vma_list v s t (page_end v)

-- For a directory whose tables are different pages in use and a list of areas without NULL,
-- `userspace_evict_vma` refuses an area that is not of the task, and then an area of the kernel, and
-- changes nothing. If the area is another one, starts at a page and ends within 32 bits, then it
-- ends, after at most as many rounds as the area has pages and one, fails no ASSERT and returns OK.
-- `virt2phy` finds 0 for every page of the area then, and the page of memory that it found before is
-- free, unless the area found for the page is mapped exactly; for every address outside the pages of
-- the area it finds what it found before, and every page of memory that was free is free. The tables
-- are different pages in use again, and if the last page of the area was mapped then its table is
-- given back or has another entry that is present.
pub userspace_evict_vma-EvictedVma :
    (dir : ℕ) (areas : Areas) (vma_list : List Ptr) (vma : Ptr) (s : Store)
    → IsSound dir s.machine
    → vma_in_task vma_list null ≡ false
    → (areas vma).virt_addr % 4096 ≡ 0
    → (areas vma).virt_addr + (areas vma).length ≤ 2 ^ 32
    → Yields (userspace_evict_vma dir areas vma_list vma s) (
        EvictedVma
          (not (vma_in_task vma_list vma))
          (areas vma).kernel_vma
          dir
          areas
          vma_list
          (areas vma)
          s)
unfolding userspace_evict_vma
userspace_evict_vma-EvictedVma dir areas vma_list vma s sound no_null aligned fits =
    elim (Bool-cases (vma_in_task vma_list vma)) [
      | inr missing ↦ rw (missing, userspace_evict_vma) (refl, refl)
      | inl found ↦ elim (Bool-cases (areas vma).kernel_vma) [
        | inl kernel ↦ simp (found, kernel) (refl, refl)
        | inr user ↦
            let v : VmArea = areas vma in
            simp (found, user)
              (evict_from-AllEvicted dir areas vma_list v s aligned (omega arith)
                (v.length / page_size + 1) v.virt_addr s aligned (omega arith) (omega arith)
                (λ a low high. search-found areas vma_list vma a found no_null low high)
                (nothing_yet dir areas vma_list v s aligned (omega arith) sound) (omega arith))
      ]
    ]
