-- ===== src/Paging/Page.antt =====
-- `get_page`: the fast search, and the slow one behind it.
use zelda_os.Prelude.{
  ℕ, zero, suc, ◌+◌, ◌*◌, ◌/◌, ◌%◌, ◌^◌, ◌≤◌, ◌<◌, ◌≡◌, refl, subst, ◌∙◌, ◌≢◌, ◌⊎◌, inl, inr, true,
  false, ◌||◌, Option, none, some, arith, ltb, leb, ◌==◌, if◌then◌else◌, ltb→lt, leb→le, Bool-cases,
  Outcome, done, panic, Yields, Yields-weaken,
}
use zelda_os.KernelVma.{page_size}
use zelda_os.Paging.{Pages, is_page_free, fast_scan, enough, get_pages, get_page_fast, get_page}
use zelda_os.Paging.Scan.{Marked, NoneFree, Scanned, fast_scan-Scanned}
use zelda_os.Paging.Run.{IsRun, IsRun-head, FirstRun}
use zelda_os.Paging.Occupy.{Changed}
use zelda_os.Paging.Give.{GivenRun, GotPages, get_pages-GotPages}

module _ (start boundary : ℕ) (aligned : start % page_size ≡ 0) where
  -- what `get_page` comes to: a free page, or that there is none
  abbrev pub Given : Pages → ℕ × Pages → Type 0
  Given s (a, t) =
      ((a ≡ 0)
        × (t.free_page_bitmap ≡ s.free_page_bitmap)
        × NoneFree s.free_page_bitmap start boundary)
      ⊎ ((start ≤ a)
          × (a < boundary)
          × (a % page_size ≡ 0)
          × Marked s.free_page_bitmap t.free_page_bitmap a)

  abbrev pub GotPage : Pages → ℕ × Pages → Type 0
  GotPage s r = Given s r × (r.1.fast_page_addr % page_size ≡ 0)

  -- where the search starts
  abbrev reset : Pages → Pages
  reset s =
      if ltb s.fast_page_addr start || leb boundary s.fast_page_addr
      then record s { fast_page_addr = start }
      else s

  abbrev IsReset : Pages → Pages → Type 0
  IsReset s t =
      (t.free_page_bitmap ≡ s.free_page_bitmap)
      × (t.fast_page_addr % page_size ≡ 0)
      × (start ≤ t.fast_page_addr)
      × ((t.fast_page_addr ≡ start) ⊎ (t.fast_page_addr < boundary))

  reset_lem : (s : Pages) → s.fast_page_addr % page_size ≡ 0 → IsReset s (reset s)
  reset_lem s h = elim (Bool-cases (ltb s.fast_page_addr start || leb boundary s.fast_page_addr)) [
    | inl out ↦ rw out (refl, aligned, omega arith, inl refl)
    | inr within ↦ rw within (refl, h, ground arith, inr (ground arith))
  ]

  -- the slow search covers what the fast one has left out
  none_free :
      (s t : Pages)
      → IsReset s t
      → NoneFree t.free_page_bitmap t.fast_page_addr boundary
      → FirstRun t.free_page_bitmap boundary start 1 none
      → NoneFree t.free_page_bitmap start boundary
  none_free s t (same, whole_t, low, place) above below b from to whole =
      elim (Bool-cases (leb t.fast_page_addr b)) [
        | inl past ↦ above b (leb→le t.fast_page_addr b past) to whole
        | inr before ↦
            let less : b < t.fast_page_addr = ground arith in
            let ends : b + page_size * 1 < boundary = room place less in
            elim (Bool-cases (is_page_free t.free_page_bitmap b)) [
              | inr taken ↦ taken
              | inl free ↦ absurd (below b from ends whole (alone free))
            ]
      ]
    where
      room :
          (t.fast_page_addr ≡ start) ⊎ (t.fast_page_addr < boundary)
          → b < t.fast_page_addr
          → b + page_size * 1 < boundary
      room (inl e) less = absurd (omega (arith, e, less, from))
      room (inr high) less = omega (arith, high, less, whole, whole_t)

      alone : is_page_free t.free_page_bitmap b ≡ true → IsRun t.free_page_bitmap b 1
      alone free zero h = let e : b + page_size * 0 ≡ b = omega arith in rw e free
      alone free (suc k) h = absurd (omega (arith, h))

  one_page :
      (old new : ℕ → ℕ) (a : ℕ)
      → a % page_size ≡ 0
      → IsRun old a 1
      → Changed false old new a 1
      → Marked old new a
  one_page old new a whole run (inside, outside) =
      let e : a + page_size * 0 ≡ a = omega arith in
      (
        IsRun-head old a 0 run,
        subst (λ (x : ℕ). is_page_free new x ≡ false) e (inside 0 (omega arith)),
        λ b other. outside b (apart b other),
      )
    where
      apart : (b : ℕ) → a / 4096 ≢ b / 4096 → (b < a) ⊎ (a + page_size * 1 ≤ b)
      apart b other = elim (Bool-cases (ltb b a)) [
        | inl below ↦ inl (ltb→lt b a below)
        | inr above ↦ let from : a ≤ b = ground arith in inr (omega (arith, from, other, whole))
      ]

  module _ (above_zero : 0 < start) (room : boundary + page_size * 2 ≤ 2 ^ 32) where
    -- For a memory that starts at the address of a page other than 0, a boundary that two pages
    -- do not take beyond 2 ^ 32, and a search that starts at the address of a page, `get_page`
    -- ends, fails no ASSERT, and returns a page that was free, which it marks as occupied, or 0
    -- if no page of the memory is free. It changes no other page.
    pub get_page-GotPage :
        (s : Pages)
        → s.fast_page_addr % page_size ≡ 0
        → Yields (get_page start boundary s) (GotPage s)
    unfolding get_page get_page_fast
    get_page-GotPage s whole =
        let t = reset s in
        let (same, whole_t, low, place) = reset_lem s whole in
        let scanned =
          fast_scan-Scanned boundary (omega (arith, room)) (boundary / page_size + 1) t whole_t
            (omega arith) in
        by (fast_scan (enough start boundary) boundary t) refl scanned
      where
        slow :
            (t : Pages)
            → IsReset s t
            → NoneFree t.free_page_bitmap t.fast_page_addr boundary
            → (u : Pages) → u.free_page_bitmap ≡ t.free_page_bitmap
            → u.fast_page_addr % page_size ≡ 0
            → Yields (get_pages start boundary 1 u) (GotPage s)
        slow t r none_above u same whole_u =
            Yields-weaken (get_pages start boundary 1 u) (GotPages start boundary 1 u) (GotPage s)
              (get_pages-GotPages start boundary aligned 1 u room)
              (λ x g. (or_none x g.0, aligned_as g.1))
          where
            to_s : u.free_page_bitmap ≡ s.free_page_bitmap
            to_s = same ∙ r.0

            aligned_as : {n : ℕ} → n ≡ u.fast_page_addr → n % page_size ≡ 0
            aligned_as e = rw e whole_u

            in_s :
                FirstRun u.free_page_bitmap boundary start 1 none
                → NoneFree s.free_page_bitmap start boundary
            in_s no_run =
                subst (λ (m : ℕ → ℕ). NoneFree m start boundary) r.0
                  (none_free s t r none_above
                    (subst (λ (m : ℕ → ℕ). FirstRun m boundary start 1 none) same no_run))

            or_none : (x : ℕ × Pages) → GivenRun start boundary 1 u x → Given s x
            or_none x (inl (z, kept, no_run)) = inl (z, kept ∙ to_s, in_s no_run)
            or_none x (inr (low, high, w, run, c)) = inr (
              low,
              omega (arith, high),
              w,
              subst (λ (m : ℕ → ℕ). Marked m x.1.free_page_bitmap x.0) to_s
                  (one_page u.free_page_bitmap x.1.free_page_bitmap x.0 w run c),
            )

        by :
            (o : Option (Outcome (ℕ × Pages)))
            → fast_scan (enough start boundary) boundary (reset s) ≡ o
            → Yields o (Scanned boundary (reset s))
            → Yields (get_page start boundary s) (GotPage s)
        by none e h = absurd h
        by (some panic) e h = absurd h
        by (some (done (a, u))) e (inl (zero_a, none_above, same, whole_u)) =
            let test : (a == 0) ≡ true = ground (arith, zero_a) in
            rw (e, get_page, get_page_fast, test)
              (slow (reset s) (reset_lem s whole) none_above u same whole_u)
        by (some (done (a, u))) e (inr (low, high, whole_a, m, whole_u)) =
            let (same, whole_t, from, place) = reset_lem s whole in
            let test : (a == 0) ≡ false = ground (arith, low, from, above_zero) in
            let marked : Marked s.free_page_bitmap u.free_page_bitmap a =
              subst (λ (x : ℕ → ℕ). Marked x u.free_page_bitmap a) same m in
            rw (e, get_page, get_page_fast, test)
              (inr (omega (arith, low, from), high, whole_a, marked), whole_u)
