-- ===== src/Paging/Run.antt =====
-- The loops of `get_pages`: a run of free pages is found if there is one, and marked.
use zelda_os.Prelude.{
  ℕ, zero, suc, ◌+◌, ◌-◌, ◌*◌, ◌/◌, ◌%◌, ◌^◌, ◌≤◌, ◌<◌, ◌≡◌, refl, subst, inl, inr, true, false,
  Option, none, some, arith, ltb, leb, ◌==◌, ltb→lt, leb→le, Bool-cases,
}
use zelda_os.KernelVma.{page_size}
use zelda_os.Paging.{is_page_free, free_run, find_run}

abbrev pub IsRun : (ℕ → ℕ) → (a n : ℕ) → Type 0
IsRun bitmap a n = (k : ℕ) → k < n → is_page_free bitmap (a + page_size * k) ≡ true

-- how far the pages are free
abbrev Stopped : (ℕ → ℕ) → (a n idx : ℕ) → Type 0
Stopped bitmap a n idx =
    (idx ≤ n) × IsRun bitmap a idx × (idx < n → is_page_free bitmap (a + page_size * idx) ≡ false)

IsRun-cons :
    (bitmap : ℕ → ℕ) (a n : ℕ)
    → is_page_free bitmap a ≡ true
    → IsRun bitmap (a + page_size) n
    → IsRun bitmap a (suc n)
IsRun-cons bitmap a n free rest zero h = let e : a + page_size * 0 ≡ a = omega arith in rw e free
IsRun-cons bitmap a n free rest (suc k) h =
    let e : a + page_size * suc k ≡ a + page_size + page_size * k = omega arith in
    rw e (rest k (omega (arith, h)))

pub IsRun-tail :
    (bitmap : ℕ → ℕ) (a n : ℕ) → IsRun bitmap a (suc n) → IsRun bitmap (a + page_size) n
IsRun-tail bitmap a n run k h =
    let e : a + page_size * suc k ≡ a + page_size + page_size * k = omega arith in
    subst (λ (x : ℕ). is_page_free bitmap x ≡ true) e (run (suc k) (omega (arith, h)))

pub IsRun-head : (bitmap : ℕ → ℕ) (a n : ℕ) → IsRun bitmap a (suc n) → is_page_free bitmap a ≡ true
IsRun-head bitmap a n run =
    let e : a + page_size * 0 ≡ a = omega arith in
    subst (λ (x : ℕ). is_page_free bitmap x ≡ true) e (run 0 (omega arith))

free_run-Stopped :
    (bitmap : ℕ → ℕ) (a n : ℕ)
    → a + page_size * n < 2 ^ 32
    → Stopped bitmap a n (free_run bitmap a n)
unfolding free_run
free_run-Stopped bitmap a zero room =
    (omega arith, (λ k h. absurd (omega (arith, h))), λ h. absurd (omega (arith, h)))
free_run-Stopped bitmap a (suc n) room =
    let step : (a + page_size) % 2 ^ 32 ≡ a + page_size = omega (arith, room) in
    let (le, run, stop) = free_run-Stopped bitmap (a + page_size) n (omega (arith, room)) in
    let idx : ℕ = free_run bitmap (a + page_size) n in
    let at : a + page_size + page_size * idx ≡ a + page_size * suc idx = omega arith in
    elim (Bool-cases (is_page_free bitmap a)) [
      | inl free ↦
          rw (free, step)
            (
              omega (arith, le),
              IsRun-cons bitmap a idx free run,
              λ h. subst (λ (x : ℕ). is_page_free bitmap x ≡ false) at (stop (omega (arith, h))),
            )
      | inr taken ↦
          let e : a + page_size * 0 ≡ a = omega arith in
          rw taken (omega arith, (λ k h. absurd (omega (arith, h))), λ h. rw e taken)
    ]

-- the first run from an address on whose end is below the boundary, or that there is none
abbrev pub FirstRun : (ℕ → ℕ) → (boundary lo n : ℕ) → Option ℕ → Type 0
FirstRun bitmap boundary lo n none =
    (b : ℕ) → lo ≤ b → b + page_size * n < boundary → b % page_size ≡ 0 → ¬ IsRun bitmap b n
FirstRun bitmap boundary lo n (some a) =
    (lo ≤ a) × (a + page_size * n < boundary) × (a % page_size ≡ 0) × IsRun bitmap a n

FirstRun-next :
    (bitmap : ℕ → ℕ) (boundary lo n idx : ℕ) (o : Option ℕ)
    → lo % page_size ≡ 0
    → idx < n
    → is_page_free bitmap (lo + page_size * idx) ≡ false
    → FirstRun bitmap boundary (lo + page_size * (idx + 1)) n o
    → FirstRun bitmap boundary lo n o
FirstRun-next bitmap boundary lo n idx (some a) aligned less taken r =
    (omega (arith, r.0), r.1, r.2, r.3)
FirstRun-next bitmap boundary lo n idx none aligned less taken r = λ b low high whole run.
    elim (Bool-cases (leb (lo + page_size * (idx + 1)) b)) [
      | inl past ↦ r b (leb→le (lo + page_size * (idx + 1)) b past) high whole run
      | inr inside ↦
          let before : b < lo + page_size * (idx + 1) = ground arith in
          let k : ℕ = (lo + page_size * idx - b) / page_size in
          let at : b + page_size * k ≡ lo + page_size * idx =
            omega (arith, before, low, aligned, whole) in
          let free : is_page_free bitmap (lo + page_size * idx) ≡ true =
            subst (λ (x : ℕ). is_page_free bitmap x ≡ true) at
              (run k (omega (arith, less, low, before))) in
          absurd (ground (arith, free, taken))
    ]

module _ (bitmap : ℕ → ℕ) (boundary n : ℕ) (room : boundary + page_size * (n + 1) ≤ 2 ^ 32) where
  abbrev Finds : Option (Option ℕ) → ℕ → Type 0
  Finds none lo = ⊥
  Finds (some o) lo = FirstRun bitmap boundary lo n o

  find_round :
      (fuel lo : ℕ)
      → lo % page_size ≡ 0
      → (lo < boundary
          → (idx : ℕ) → idx < n
          → Finds
              (find_run fuel bitmap boundary (lo + page_size * (idx + 1)) n)
              (lo + page_size * (idx + 1)))
      → Finds (find_run (suc fuel) bitmap boundary lo n) lo
  unfolding find_run
  find_round fuel lo aligned on = elim (Bool-cases (ltb lo boundary)) [
    | inr out ↦ rw (out, find_run) (λ b low high whole run. ground arith)
    | inl within ↦
        let low : lo < boundary = ltb→lt lo boundary within in
        let ends : (lo + page_size * n) % 2 ^ 32 ≡ lo + page_size * n = omega (arith, low, room) in
        let (le, free, stop) = free_run-Stopped bitmap lo n (omega (arith, low, room)) in
        let idx : ℕ = free_run bitmap lo n in
        elim (Bool-cases (leb boundary (lo + page_size * n))) [
          | inl over ↦ rw (within, find_run, ends, over) (λ b from high whole run. ground arith)
          | inr fits ↦ elim (Bool-cases (idx == n)) [
            | inl all ↦
                let e : idx ≡ n = ground arith in
                let run : IsRun bitmap lo n = subst (λ (x : ℕ). IsRun bitmap lo x) e free in
                rw (within, find_run, ends, fits, all) (omega arith, ground arith, aligned, run)
            | inr some_taken ↦
                let less : idx < n = ground arith in
                let next : (lo + page_size * (idx + 1)) % 2 ^ 32 ≡ lo + page_size * (idx + 1) =
                  omega (arith, low, room, less) in
                rw (within, find_run, ends, fits, some_taken, next)
                  (further (find_run fuel bitmap boundary (lo + page_size * (idx + 1)) n) idx less
                    (stop less) (on low idx less))
          ]
        ]
  ]
    where
      further :
          (o : Option (Option ℕ)) (idx : ℕ)
          → idx < n
          → is_page_free bitmap (lo + page_size * idx) ≡ false
          → Finds o (lo + page_size * (idx + 1))
          → Finds o lo
      further none idx less taken f = f
      further (some o) idx less taken f =
          FirstRun-next bitmap boundary lo n idx o aligned less taken f

  pub find_run-FirstRun :
      (fuel lo : ℕ)
      → lo % page_size ≡ 0
      → boundary ≤ lo + page_size * fuel
      → (o : Option ℕ) × (find_run (suc fuel) bitmap boundary lo n ≡ some o)
        × FirstRun bitmap boundary lo n o
  find_run-FirstRun fuel lo aligned reach =
      found (find_run (suc fuel) bitmap boundary lo n) refl (finds fuel lo aligned reach)
    where
      finds :
          (fuel lo : ℕ)
          → lo % page_size ≡ 0
          → boundary ≤ lo + page_size * fuel
          → Finds (find_run (suc fuel) bitmap boundary lo n) lo
      finds zero lo aligned reach =
          find_round zero lo aligned (λ low. absurd (omega (arith, low, reach)))
      finds (suc fuel) lo aligned reach = find_round (suc fuel) lo aligned (λ low idx less.
          finds fuel (lo + page_size * (idx + 1)) (omega (arith, aligned)) (omega (arith, reach)))

      found :
          (r : Option (Option ℕ))
          → find_run (suc fuel) bitmap boundary lo n ≡ r
          → Finds r lo
          → (o : Option ℕ) × (find_run (suc fuel) bitmap boundary lo n ≡ some o)
            × FirstRun bitmap boundary lo n o
      found none e f = absurd f
      found (some o) e f = (o, e, f)
