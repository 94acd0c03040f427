-- ===== src/UserPaging/Evict.antt =====
-- `userspace_evict_page` unmaps one page of a task.
use zelda_os.Prelude.{
  ℕ, ◌+◌, ◌*◌, ◌/◌, ◌%◌, ◌^◌, ◌<◌, ◌≡◌, refl, sym, ap, subst, ◌∙◌, ◌≢◌, ◌⊎◌, inl, inr, Bool, true,
  false, not, List, arith, ◌==◌, if◌then◌else◌, ==_false, Outcome, done, ◌>>=◌, ◌>>◌, ensure, Ends,
  Ends-bind,
}
use zelda_os.Status.{Status, ok, err_not_present}
use zelda_os.Links.{Ptr, null}
use zelda_os.UserVma.{Areas, search_userspace_vma_by_addr}
use zelda_os.Paging.{Pages, is_page_free, free_pages, free_page}
use zelda_os.Paging.Bitmap.{mark_page_as_free-same, mark_page_as_free-other}
use zelda_os.Paging.Tables.{Machine, present, pg_frame, pde_at, pte_at, virt2phy}
use zelda_os.Paging.Tables.Words.{present-cases}
use zelda_os.Paging.Tables.Walk.{virt2phy-no_page, virt2phy-entry}
use zelda_os.Paging.Tables.Sound.{IsSound}
use zelda_os.Paging.Tables.Write.{written-IsSound, written_at, written-others}
use zelda_os.UserPaging.{Store, reclaim_page_table, drop_page, userspace_evict_page}
use zelda_os.UserPaging.Enter.{Unchanged, directory_test}
use zelda_os.UserPaging.Leave.{reclaim_page_table-Unchanged}

-- `virt2phy` finds 0 for the address, and for the other pages what it found before
abbrev pub Cleared : (dir virt : ℕ) → Machine → Machine → Type 0
Cleared dir virt m m' =
    IsSound dir m'
    × (virt2phy m'.memory dir virt ≡ 0)
    × ((v : ℕ)
        → v < 2 ^ 32
        → v / 4096 ≢ virt / 4096
        → virt2phy m'.memory dir v ≡ virt2phy m.memory dir v)

-- The page of memory at an address is free, and no other page is changed.
abbrev pub Freed : ℕ → (old new : Pages) → Type 0
Freed a old new =
    (is_page_free new.free_page_bitmap a ≡ true)
    × ((b : ℕ)
        → a / 4096 ≢ b / 4096
        → is_page_free new.free_page_bitmap b ≡ is_page_free old.free_page_bitmap b)

-- what becomes of the page of memory
abbrev pub Returned : Bool → (phy : ℕ) → (old new : Pages) → Type 0
Returned true phy old new = new ≡ old
Returned false phy old new = Freed phy old new

-- what `userspace_evict_page` comes to
abbrev pub EvictResult : (dir virt : ℕ) → (exact : Bool) → Store → Status × Store → Type 0
EvictResult dir virt exact s (rc, t) =
    ((rc ≡ ok)
      × Cleared dir virt s.machine t.machine
      × Returned exact (virt2phy s.machine.memory dir virt) s.pages t.pages)
    ⊎ ((rc ≡ err_not_present) × (t ≡ s))

free_page-Freed :
    (frame low : ℕ) (s : Pages)
    → low < 4096
    → Freed (frame * 4096 + low) s (free_page (frame * 4096) s)
unfolding free_page free_pages
free_page-Freed frame low s small =
    let same : frame * 4096 / 4096 ≡ (frame * 4096 + low) / 4096 = omega (arith, small) in
    (
      mark_page_as_free-same s.free_page_bitmap (frame * 4096) (frame * 4096 + low) same,
      λ b other.
          mark_page_as_free-other s.free_page_bitmap (frame * 4096) b (λ e. other (sym same ∙ e)),
    )

module _ (dir virt : ℕ) (s : Store) (exact : Bool) (sound : IsSound dir s.machine)
    (small : virt < 2 ^ 32) (there : present (s.machine.memory (pde_at dir virt)) ≡ 1)
    (mapped : present (s.machine.memory (pte_at s.machine.memory dir virt)) ≡ 1) where
  abbrev left : Store
  left = drop_page dir virt exact s

  left-Cleared : Cleared dir virt s.machine left.machine
  left-Cleared = (
    written-IsSound dir s.machine sound virt 0 there,
    virt2phy-no_page left.machine.memory dir virt
        (ap present (written_at dir s.machine sound virt 0 there)),
    written-others dir s.machine sound virt 0 there small,
  )

  left-Returned : Returned exact (virt2phy s.machine.memory dir virt) s.pages left.pages
  left-Returned = by exact
    where
      at :
          virt2phy s.machine.memory dir virt
          ≡ pg_frame (s.machine.memory (pte_at s.machine.memory dir virt)) * 4096 + virt % 4096
      at =
          virt2phy-entry s.machine.memory dir virt
            (s.machine.memory (pte_at s.machine.memory dir virt)) there refl mapped

      by :
          (x : Bool)
          → Returned x (virt2phy s.machine.memory dir virt) s.pages (drop_page dir virt x s).pages
      by true = refl
      by false =
          let frame : ℕ = pg_frame (s.machine.memory (pte_at s.machine.memory dir virt)) in
          subst (λ (a : ℕ). Freed a s.pages (free_page (frame * 4096) s.pages)) (sym at)
            (free_page-Freed frame (virt % 4096) s.pages (omega arith))

  evicted :
      (reclaim : Bool)
      → Ends
          (if reclaim
            then reclaim_page_table dir virt left.machine
              >>= (λ r. done (ok, record left { machine = r.1 }))
            else done (ok, left))
          (EvictResult dir virt exact s)
  evicted false = inl (refl, left-Cleared, left-Returned)
  evicted true =
      Ends-bind (reclaim_page_table dir virt left.machine)
        (λ r. done (ok, record left { machine = r.1 })) (λ r. Unchanged dir left.machine r.1)
        (EvictResult dir virt exact s)
        (reclaim_page_table-Unchanged dir virt left.machine left-Cleared.0)
        (λ r (sound', same). inl (
          refl,
          (
            sound',
            same virt ∙ left-Cleared.1,
            λ v small_v other. same v ∙ left-Cleared.2 v small_v other,
          ),
          left-Returned,
        ))

-- a step behind three early returns
behind_guards :
    {A : Type 0} (z a b c : Bool) (early late : Outcome A) (P : A → Type 0)
    → z ≡ false
    → Ends early P
    → (b ≡ false → c ≡ false → Ends late P)
    → Ends
        (ensure (not z) >> (if a then early else if b then early else if c then early else late))
        P
behind_guards true a b c early late P e h k = absurd (ground arith)
behind_guards false true b c early late P e h k = h
behind_guards false false true c early late P e h k = h
behind_guards false false false true early late P e h k = h
behind_guards false false false false early late P e h k = k refl refl

present_if : (e : ℕ) → (present e == 0) ≡ false → present e ≡ 1
present_if e h = elim (present-cases e) [
  | inl absent ↦ absurd (==_false (present e) 0 h absent)
  | inr there ↦ there
]

-- For a directory whose tables are different pages in use, and an address below 2 ^ 32,
-- `userspace_evict_page` fails no ASSERT. If it returns OK then `virt2phy` finds 0 for the
-- address, and for every other page what it found before, the tables are different pages in use
-- again, and the page of memory that `virt2phy` found for the address before is free, and no
-- other page of memory is changed, unless the area is mapped exactly and they are all left alone.
-- Else nothing is changed.
pub userspace_evict_page-EvictResult :
    (dir : ℕ) (areas : Areas) (vma_list : List Ptr) (virt : ℕ) (reclaim : Bool) (s : Store)
    → IsSound dir s.machine
    → virt < 2 ^ 32
    → Ends
        (userspace_evict_page dir areas vma_list virt reclaim s)
        (EvictResult dir virt (areas (search_userspace_vma_by_addr areas vma_list virt)).exact s)
unfolding userspace_evict_page
userspace_evict_page-EvictResult dir areas vma_list virt reclaim s sound small =
    let vma : Ptr = search_userspace_vma_by_addr areas vma_list virt in
    let memory = s.machine.memory in
    let t : Store = drop_page dir virt (areas vma).exact s in
    behind_guards (dir == 0) (vma == null) (present (memory (pde_at dir virt)) == 0)
      (present (memory (pte_at memory dir virt)) == 0) (done (err_not_present, s))
      (if reclaim
        then reclaim_page_table dir virt t.machine >>= (λ r. done (ok, record t { machine = r.1 }))
        else done (ok, t))
      (EvictResult dir virt (areas vma).exact s) (directory_test dir sound.directory.0)
      (inr (refl, refl))
      (λ y x.
        evicted dir virt s (areas vma).exact sound small (present_if (memory (pde_at dir virt)) y)
          (present_if (memory (pte_at memory dir virt)) x) reclaim)
