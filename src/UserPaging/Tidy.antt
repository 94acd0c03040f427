-- ===== src/UserPaging/Tidy.antt =====
-- Evicting a page of an area: whether it was there, and what becomes of its table.
use zelda_os.Prelude.{
  ℕ, ◌*◌, ◌≡◌, refl, ap, ◌⊎◌, inl, inr, Bool, true, false, not, List, arith, ◌==◌, if◌then◌else◌,
  ==_iff, Outcome, done, ◌>>=◌, ◌>>◌, ensure, Ends, Ends-bind,
}
use zelda_os.Status.{Status, ok, err_not_present, err_busy}
use zelda_os.Links.{Ptr, null}
use zelda_os.UserVma.{Areas, search_userspace_vma_by_addr}
use zelda_os.Paging.Tables.{Machine, present, pg_frame, pde_at, pte_at, virt2phy}
use zelda_os.Paging.Tables.Words.{store-same}
use zelda_os.Paging.Tables.Walk.{virt2phy-no_table, virt2phy-no_page}
use zelda_os.UserPaging.{
  Store, any_present, table_entries, reclaim_page_table, drop_page, userspace_evict_page,
}

-- a table that is not given back has an entry that is present
abbrev pub IsTidy : (dir virt : ℕ) → Machine → Type 0
IsTidy dir virt m =
    (present (m.memory (pde_at dir virt)) ≡ 0)
    ⊎ (any_present m.memory (pg_frame (m.memory (pde_at dir virt)) * 4096) 0 table_entries ≡ true)

-- a step behind an ASSERT and two early returns
behind_tests :
    {A : Type 0} (z a b : Bool) (first second late : Outcome A) (P : A → Type 0)
    → z ≡ false
    → (a ≡ true → Ends first P)
    → (b ≡ true → Ends second P)
    → Ends late P
    → Ends (ensure (not z) >> (if a then first else if b then second else late)) P
behind_tests true a b first second late P e h k l = absurd (ground arith)
behind_tests false true b first second late P e h k l = h refl
behind_tests false false true first second late P e h k l = k refl
behind_tests false false false first second late P e h k l = l

reclaim_page_table-IsTidy :
    (dir virt : ℕ) (m : Machine)
    → (dir == 0) ≡ false
    → Ends (reclaim_page_table dir virt m) (λ r. IsTidy dir virt r.1)
unfolding reclaim_page_table
reclaim_page_table-IsTidy dir virt m d =
    let page_table : ℕ = pg_frame (m.memory (pde_at dir virt)) * 4096 in
    behind_tests (dir == 0) (present (m.memory (pde_at dir virt)) == 0)
      (any_present m.memory page_table 0 table_entries) (done (err_not_present, m))
      (done (err_busy, m)) _ (λ r. IsTidy dir virt r.1) d (λ absent. inl ((==_iff _ 0).0 absent))
      (λ some_left. inr some_left) (inl (ap present (store-same m.memory (pde_at dir virt) 0)))

-- a step behind three early returns, the first of which is not taken
behind_two :
    {A : Type 0} (z a b c : Bool) (early late : Outcome A) (P : A → Type 0)
    → z ≡ false
    → a ≡ false
    → (b ≡ true → Ends early P)
    → (c ≡ true → Ends early P)
    → Ends late P
    → Ends
        (ensure (not z) >> (if a then early else if b then early else if c then early else late))
        P
behind_two true a b c early late P e f h k l = absurd (ground arith)
behind_two false true b c early late P e f h k l = absurd (ground arith)
behind_two false false true c early late P e f h k l = h refl
behind_two false false false true early late P e f h k l = k refl
behind_two false false false false early late P e f h k l = l

-- no page was there, or the page is evicted and its table, if it was to be reclaimed, tidy
abbrev pub Evicted : (dir virt : ℕ) → (reclaim : Bool) → Store → Status × Store → Type 0
Evicted dir virt reclaim s (rc, t) =
    ((rc ≡ err_not_present) × (virt2phy s.machine.memory dir virt ≡ 0))
    ⊎ ((rc ≡ ok) × (reclaim ≡ true → IsTidy dir virt t.machine))

pub userspace_evict_page-Evicted :
    (dir : ℕ) (areas : Areas) (vma_list : List Ptr) (virt : ℕ) (reclaim : Bool) (s : Store)
    → (dir == 0) ≡ false
    → (search_userspace_vma_by_addr areas vma_list virt == null) ≡ false
    → Ends (userspace_evict_page dir areas vma_list virt reclaim s) (Evicted dir virt reclaim s)
unfolding userspace_evict_page
userspace_evict_page-Evicted dir areas vma_list virt reclaim s d found =
    let vma : Ptr = search_userspace_vma_by_addr areas vma_list virt in
    let memory = s.machine.memory in
    let t : Store = drop_page dir virt (areas vma).exact s in
    behind_two (dir == 0) (vma == null) (present (memory (pde_at dir virt)) == 0)
      (present (memory (pte_at memory dir virt)) == 0) (done (err_not_present, s))
      (if reclaim
        then reclaim_page_table dir virt t.machine >>= (λ r. done (ok, record t { machine = r.1 }))
        else done (ok, t))
      (Evicted dir virt reclaim s) d found
      (λ y. inl (refl, virt2phy-no_table memory dir virt ((==_iff _ 0).0 y)))
      (λ x. inl (refl, virt2phy-no_page memory dir virt ((==_iff _ 0).0 x))) (by reclaim t)
  where
    by :
        (b : Bool) (t : Store)
        → Ends
            (if b
              then reclaim_page_table dir virt t.machine
                >>= (λ r. done (ok, record t { machine = r.1 }))
              else done (ok, t))
            (Evicted dir virt b s)
    by false t = inr (refl, λ e. absurd (ground arith))
    by true t =
        Ends-bind (reclaim_page_table dir virt t.machine)
          (λ r. done (ok, record t { machine = r.1 })) (λ r. IsTidy dir virt r.1)
          (Evicted dir virt true s) (reclaim_page_table-IsTidy dir virt t.machine d)
          (λ r tidy. inr (refl, λ e. tidy))
