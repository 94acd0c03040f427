-- ===== src/Paging/Scan.antt =====
-- The loop of `get_page_fast`: it ends, and it finds the first free page from an address on.
use zelda_os.Prelude.{
  ℕ, zero, suc, ◌+◌, ◌*◌, ◌/◌, ◌%◌, ◌^◌, ◌≤◌, ◌<◌, ◌≡◌, refl, subst, ◌≢◌, ◌⊎◌, inl, inr, true,
  false, arith, ltb, ◌==◌, ltb→lt, Bool-cases, Yields, Yields-weaken,
}
use zelda_os.KernelVma.{page_size}
use zelda_os.Paging.{Pages, is_page_free, mark_page_as_occupied, fast_scan}
use zelda_os.Paging.Bitmap.{mark_page_as_occupied-same, mark_page_as_occupied-other}

-- The page at an address was free and has been marked, and no other page is changed.
abbrev pub Marked : (old new : ℕ → ℕ) → ℕ → Type 0
Marked old new a =
    (is_page_free old a ≡ true)
    × (is_page_free new a ≡ false)
    × ((b : ℕ) → a / 4096 ≢ b / 4096 → is_page_free new b ≡ is_page_free old b)

-- no page from one address up to another is free
abbrev pub NoneFree : (ℕ → ℕ) → (lo hi : ℕ) → Type 0
NoneFree bitmap lo hi =
    (b : ℕ) → lo ≤ b → b < hi → b % page_size ≡ 0 → is_page_free bitmap b ≡ false

-- the page that is given, or that there is none
abbrev pub Scanned : (boundary : ℕ) → Pages → ℕ × Pages → Type 0
Scanned boundary s (a, t) =
    ((a ≡ 0)
      × NoneFree s.free_page_bitmap s.fast_page_addr boundary
      × (t.free_page_bitmap ≡ s.free_page_bitmap)
      × (t.fast_page_addr % page_size ≡ 0))
    ⊎ ((s.fast_page_addr ≤ a)
        × (a < boundary)
        × (a % page_size ≡ 0)
        × Marked s.free_page_bitmap t.free_page_bitmap a
        × (t.fast_page_addr % page_size ≡ 0))

pub mark-Marked :
    (bitmap : ℕ → ℕ) (a : ℕ)
    → is_page_free bitmap a ≡ true
    → Marked bitmap (mark_page_as_occupied bitmap a) a
mark-Marked bitmap a e =
    (e, mark_page_as_occupied-same bitmap a a refl, mark_page_as_occupied-other bitmap a)

NoneFree-next :
    (bitmap : ℕ → ℕ) (lo hi : ℕ)
    → lo % page_size ≡ 0
    → is_page_free bitmap lo ≡ false
    → NoneFree bitmap (lo + page_size) hi
    → NoneFree bitmap lo hi
NoneFree-next bitmap lo hi aligned e rest b low high whole = elim (Bool-cases (lo == b)) [
  | inl same ↦ let p : lo ≡ b = ground arith in subst (λ (x : ℕ). is_page_free bitmap x ≡ false) p e
  | inr more ↦
      let far : lo ≢ b = ground arith in rest b (omega (arith, low, far, aligned, whole)) high whole
]

-- the state of the loop in the next round
abbrev stepped : Pages → Pages
stepped s = record s { fast_page_addr = s.fast_page_addr + page_size }

module _ (boundary : ℕ) (room : boundary + page_size ≤ 2 ^ 32) where
  Scanned-next :
      (s : Pages) (r : ℕ × Pages)
      → s.fast_page_addr % page_size ≡ 0
      → is_page_free s.free_page_bitmap s.fast_page_addr ≡ false
      → Scanned boundary (stepped s) r
      → Scanned boundary s r
  Scanned-next s r aligned taken (inl (zero_a, no_free, same, w)) = inl (
    zero_a,
    NoneFree-next s.free_page_bitmap s.fast_page_addr boundary aligned taken no_free,
    same,
    w,
  )
  Scanned-next s r aligned taken (inr (low, high, whole, m, w)) =
      inr (omega (arith, low), high, whole, m, w)

  scan_round :
      (fuel : ℕ) (s : Pages)
      → s.fast_page_addr % page_size ≡ 0
      → (s.fast_page_addr < boundary
          → Yields (fast_scan fuel boundary (stepped s)) (Scanned boundary (stepped s)))
      → Yields (fast_scan (suc fuel) boundary s) (Scanned boundary s)
  unfolding fast_scan
  scan_round fuel s aligned on = elim (Bool-cases (ltb s.fast_page_addr boundary)) [
    | inr out ↦
        rw (out, fast_scan) (inl (refl, (λ b low high whole. absurd (ground arith)), refl, aligned))
    | inl within ↦
        let low : s.fast_page_addr < boundary = ltb→lt s.fast_page_addr boundary within in
        let step : (s.fast_page_addr + page_size) % 2 ^ 32 ≡ s.fast_page_addr + page_size =
          omega (arith, room, low) in
        let next_aligned : (s.fast_page_addr + page_size) % page_size ≡ 0 =
          omega (arith, aligned) in
        elim (Bool-cases (is_page_free s.free_page_bitmap s.fast_page_addr)) [
          | inl free ↦
              let m = mark-Marked s.free_page_bitmap s.fast_page_addr free in
              rw (within, fast_scan, free, m.1, step)
                (inr (omega arith, low, aligned, m, next_aligned))
          | inr taken ↦
              rw (within, fast_scan, taken, step)
                (Yields-weaken (fast_scan fuel boundary (stepped s)) (Scanned boundary (stepped s))
                  (Scanned boundary s) (on low) (λ r. Scanned-next s r aligned taken))
        ]
  ]

  pub fast_scan-Scanned :
      (fuel : ℕ) (s : Pages)
      → s.fast_page_addr % page_size ≡ 0
      → boundary ≤ s.fast_page_addr + page_size * fuel
      → Yields (fast_scan (suc fuel) boundary s) (Scanned boundary s)
  fast_scan-Scanned zero s aligned reach =
      scan_round zero s aligned (λ low. absurd (omega (arith, low, reach)))
  fast_scan-Scanned (suc fuel) s aligned reach =
      scan_round (suc fuel) s aligned
        (λ low. fast_scan-Scanned fuel (stepped s) (omega (arith, aligned)) (omega (arith, reach)))
