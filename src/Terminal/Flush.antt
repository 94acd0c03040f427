-- ===== src/Terminal/Flush.antt =====
-- What is on the screen after `ptty_flush_terminal`.
use zelda_os.Prelude.{
  ℕ, zero, suc, ◌+◌, ◌*◌, ◌/◌, ◌%◌, ◌≤◌, ◌<◌, ◌≡◌, refl, ap, ◌∙◌, ◌≢◌, Bool, true, false, ◌&&◌,
  some, arith, ltb, ◌==◌, if◌then◌else◌, ==_iff,
}
use zelda_os.Terminal.{Ptty, Screen, ptty_columns, show_row, show_rows}
use zelda_os.Terminal.Valid.{depth, IsValid}

-- one word of the screen
abbrev pub word : (old byte : ℕ) → ℕ
word old byte = old / 256 * 256 + byte

show_row-same :
    (video : (row col : ℕ) → ℕ) (at : ℕ) (line : ℕ → ℕ) (c : ℕ)
    → c < ptty_columns
    → show_row video at line at c ≡ word (video at c) (line c)
show_row-same video at line c h =
    let e : (at == at && ltb c ptty_columns) ≡ true = ground (arith, h) in rw e refl

show_row-other :
    (video : (row col : ℕ) → ℕ) (at : ℕ) (line : ℕ → ℕ) (r c : ℕ)
    → r ≢ at
    → show_row video at line r c ≡ video r c
show_row-other video at line r c h =
    let e : (r == at && ltb c ptty_columns) ≡ false = ground (arith, h) in rw e refl

-- `k` rows of the buffer are shown from a row of the screen on, and those above are as before.
abbrev pub Rows : ((row col : ℕ) → ℕ) → (idx at k : ℕ) → (old new : (row col : ℕ) → ℕ) → Type 0
Rows buffer idx at k old new =
    ((i c : ℕ)
      → i < k
      → c < ptty_columns
      → new (at + i) c ≡ word (old (at + i) c) (buffer ((idx + i) % 26) c))
    × ((i c : ℕ) → i < at → new i c ≡ old i c)

module _ (buffer : (row col : ℕ) → ℕ) (stop : ℕ) where
  Rows-cons :
      (idx at k : ℕ) (old new : (row col : ℕ) → ℕ)
      → idx < 26
      → Rows buffer ((idx + 1) % 26) (at + 1) k (show_row old at (buffer idx)) new
      → Rows buffer idx at (suc k) old new
  Rows-cons idx at k old new small (rows, above) = (
    shown,
    λ i c h.
        above i c (omega (arith, h))
        ∙ show_row-other old at (buffer idx) i c (λ e. omega (arith, e, h)),
  )
    where
      shown :
          (i c : ℕ)
          → i < suc k
          → c < ptty_columns
          → new (at + i) c ≡ word (old (at + i) c) (buffer ((idx + i) % 26) c)
      shown zero c h hc =
          let a : at + 0 ≡ at = omega arith in
          let b : (idx + 0) % 26 ≡ idx = omega (arith, small) in
          rw (a, b) (above at c (omega arith) ∙ show_row-same old at (buffer idx) c hc)
      shown (suc i) c h hc =
          let a : at + suc i ≡ at + 1 + i = omega arith in
          let b : (idx + suc i) % 26 ≡ ((idx + 1) % 26 + i) % 26 = omega arith in
          rw (a, b)
            (rows i c (omega (arith, h)) hc
              ∙ ap (λ (x : ℕ). word x (buffer (((idx + 1) % 26 + i) % 26) c))
                  (show_row-other old at (buffer idx) (at + 1 + i) c (λ e. omega (arith, e))))

  pub show_rows-Rows :
      (k fuel idx at : ℕ) (video : (row col : ℕ) → ℕ)
      → idx < 26
      → stop ≡ (idx + k) % 26
      → k < 26
      → k < fuel
      → (new : (row col : ℕ) → ℕ) × (show_rows fuel buffer idx stop at video ≡ some (at + k, new))
        × Rows buffer idx at k video new
  unfolding show_rows
  show_rows-Rows k zero idx at video small e lk lf = absurd (omega (arith, lf))
  show_rows-Rows zero (suc fuel) idx at video small e lk lf =
      let here : (idx == stop) ≡ true = (==_iff idx stop).1 (omega (arith, e, small)) in
      let a : at + 0 ≡ at = omega arith in
      (video, rw (here, show_rows, a) refl, ((λ i c h. absurd (omega (arith, h))), λ i c h. refl))
  show_rows-Rows (suc k) (suc fuel) idx at video small e lk lf =
      let far : (idx == stop) ≡ false = apart (omega (arith, e, small, lk)) in
      let a : at + suc k ≡ at + 1 + k = omega arith in
      let (new, run, rows) =
        show_rows-Rows k fuel ((idx + 1) % 26) (at + 1) (show_row video at (buffer idx))
          (omega arith) (omega (arith, e)) (omega (arith, lk)) (omega (arith, lf)) in
      (new, rw (far, show_rows, a) run, Rows-cons idx at k video new small rows)
    where
      apart : idx ≢ stop → (idx == stop) ≡ false
      apart ne = ground (arith, ne)

-- the first row of the screen that is written
abbrev pub first_shown : Ptty → ℕ
first_shown p = if p.need_scroll then 0 else depth p

-- The screen shows the rows in use, the first one at the top, and the cursor is on the line below.
abbrev pub Shown : Ptty → Screen → Ptty × Screen → Type 0
Shown p s (q, t) =
    IsValid q
    × (q.need_scroll ≡ false)
    × (t.cursor ≡ (p.col_index, depth p + 1))
    × ((i c : ℕ)
        → first_shown p ≤ i
        → i ≤ depth p
        → c < ptty_columns
        → t.video i c ≡ word (s.video i c) (p.buffer ((p.row_front + i) % 26) c))

abbrev pub Wrote : Bool → Ptty → Screen → Ptty × Screen → Type 0
Wrote true p s r = Shown p s r
Wrote false p s r = IsValid r.0 × (r ≡ (p, s))
