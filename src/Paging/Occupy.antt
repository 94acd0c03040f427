-- ===== src/Paging/Occupy.antt =====
-- Marking a run of pages as occupied, and as free.
use zelda_os.Prelude.{
  ℕ, zero, suc, ◌+◌, ◌*◌, ◌/◌, ◌%◌, ◌^◌, ◌≤◌, ◌<◌, ◌≡◌, refl, sym, subst, ◌∙◌, ◌≢◌, ◌⊎◌, inl, inr,
  Bool, true, false, arith, Ends, Ends-weaken,
}
use zelda_os.KernelVma.{page_size}
use zelda_os.Paging.{
  Pages, is_page_free, mark_page_as_occupied, mark_page_as_free, occupy_run, free_pages,
}
use zelda_os.Paging.Bitmap.{
  mark_page_as_occupied-same, mark_page_as_free-same, mark_page_as_occupied-other,
  mark_page_as_free-other,
}
use zelda_os.Paging.Run.{IsRun, IsRun-tail, IsRun-head}

-- The pages of the run have one state, and the others are as before.
abbrev pub Changed : Bool → (old new : ℕ → ℕ) → (a n : ℕ) → Type 0
Changed state old new a n =
    ((k : ℕ) → k < n → is_page_free new (a + page_size * k) ≡ state)
    × ((b : ℕ) → (b < a) ⊎ (a + page_size * n ≤ b) → is_page_free new b ≡ is_page_free old b)

Changed-cons :
    (state : Bool) (old new mid : ℕ → ℕ) (a n : ℕ)
    → a % page_size ≡ 0
    → is_page_free mid a ≡ state
    → ((b : ℕ) → a / 4096 ≢ b / 4096 → is_page_free mid b ≡ is_page_free old b)
    → Changed state mid new (a + page_size) n
    → Changed state old new a (suc n)
Changed-cons state old new mid a n aligned first others (inside, outside) = (run, rest)
  where
    run : (k : ℕ) → k < suc n → is_page_free new (a + page_size * k) ≡ state
    run zero h =
        let e : a + page_size * 0 ≡ a = omega arith in rw e (outside a (inl (omega arith)) ∙ first)
    run (suc k) h =
        let e : a + page_size * suc k ≡ a + page_size + page_size * k = omega arith in
        rw e (inside k (omega (arith, h)))

    rest : (b : ℕ) → (b < a) ⊎ (a + page_size * suc n ≤ b) → is_page_free new b ≡ is_page_free old b
    rest b (inl below) =
        outside b (inl (omega (arith, below))) ∙ others b (λ e. omega (arith, e, below, aligned))
    rest b (inr above) =
        outside b (inr (omega (arith, above))) ∙ others b (λ e. omega (arith, e, above, aligned))

Changed-nil : (state : Bool) (bitmap : ℕ → ℕ) (a : ℕ) → Changed state bitmap bitmap a 0
Changed-nil state bitmap a = ((λ k h. absurd (omega (arith, h))), λ b h. refl)

IsRun-marked :
    (bitmap : ℕ → ℕ) (a n : ℕ)
    → a % page_size ≡ 0
    → IsRun bitmap (a + page_size) n
    → IsRun (mark_page_as_occupied bitmap a) (a + page_size) n
IsRun-marked bitmap a n aligned run k h =
    mark_page_as_occupied-other bitmap a (a + page_size + page_size * k)
      (λ e. omega (arith, e, aligned))
    ∙ run k h

pub occupy_run-Changed :
    (bitmap : ℕ → ℕ) (a n : ℕ)
    → a % page_size ≡ 0
    → a + page_size * n < 2 ^ 32
    → IsRun bitmap a n
    → Ends (occupy_run bitmap a n) (λ new. Changed false bitmap new a n)
unfolding occupy_run
occupy_run-Changed bitmap a zero aligned room run = Changed-nil false bitmap a
occupy_run-Changed bitmap a (suc n) aligned room run =
    let marked : ℕ → ℕ = mark_page_as_occupied bitmap a in
    let step : (a + page_size) % 2 ^ 32 ≡ a + page_size = omega (arith, room) in
    let free = IsRun-head bitmap a n run in
    let taken = mark_page_as_occupied-same bitmap a a refl in
    let rest =
      occupy_run-Changed marked (a + page_size) n (omega (arith, aligned)) (omega (arith, room))
        (IsRun-marked bitmap a n aligned (IsRun-tail bitmap a n run)) in
    rw (free, taken, step)
      (Ends-weaken (occupy_run marked (a + page_size) n)
        (λ new. Changed false marked new (a + page_size) n)
        (λ new. Changed false bitmap new a (suc n)) rest
        (λ new.
          Changed-cons false bitmap new marked a n aligned taken
            (mark_page_as_occupied-other bitmap a)))

pub free_pages-Changed :
    (s : Pages) (a n : ℕ)
    → a % page_size ≡ 0
    → a + page_size * n < 2 ^ 32
    → Changed true s.free_page_bitmap (free_pages a n s).free_page_bitmap a n
unfolding free_pages
free_pages-Changed s a zero aligned room = Changed-nil true s.free_page_bitmap a
free_pages-Changed s a (suc n) aligned room =
    let freed : ℕ → ℕ = mark_page_as_free s.free_page_bitmap a in
    let t : Pages = record s { free_page_bitmap = freed } in
    let step : (a + page_size) % 2 ^ 32 ≡ a + page_size = omega (arith, room) in
    let rest =
      free_pages-Changed t (a + page_size) n (omega (arith, aligned)) (omega (arith, room)) in
    subst (λ (x : ℕ). Changed true s.free_page_bitmap (free_pages x n t).free_page_bitmap a (suc n))
      (sym step)
      (Changed-cons true s.free_page_bitmap (free_pages (a + page_size) n t).free_page_bitmap freed
        a n aligned (mark_page_as_free-same s.free_page_bitmap a a refl)
        (mark_page_as_free-other s.free_page_bitmap a) rest)
