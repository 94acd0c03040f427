-- ===== src/Paging/Base/Stop.antt =====
-- The search for a free page of the inventory ends at the first one, or at the top.
use zelda_os.Prelude.{
  ℕ, zero, suc, ◌+◌, ◌*◌, ◌%◌, ◌≤◌, ◌<◌, ◌≡◌, refl, subst, ◌≢◌, inl, inr, true, false, Option, none,
  some, arith, ltb, ◌==◌, ltb→lt, Bool-cases,
}
use zelda_os.KernelVma.{page_size}
use zelda_os.Paging.Base.{
  page_space_bottom, page_space_top, is_base_page_free, base_stop, base_rounds,
}

-- the pages of the inventory from one address up to another are occupied
abbrev pub AreTaken : (ℕ → ℕ) → (lo hi : ℕ) → Type 0
AreTaken bitmap lo hi =
    (b : ℕ)
    → lo ≤ b
    → b < hi
    → b < page_space_top
    → b % page_size ≡ 0
    → is_base_page_free bitmap b ≡ false

abbrev pub IsStop : (ℕ → ℕ) → (lo p : ℕ) → Type 0
IsStop bitmap lo p =
    (lo ≤ p)
    × (p % page_size ≡ 0)
    × (p < page_space_top → is_base_page_free bitmap p ≡ true)
    × AreTaken bitmap lo p

Reaches : (ℕ → ℕ) → ℕ → Option ℕ → Type 0
Reaches bitmap lo none = ⊥
Reaches bitmap lo (some p) = IsStop bitmap lo p

taken_next :
    (bitmap : ℕ → ℕ) (lo hi : ℕ)
    → lo % page_size ≡ 0
    → is_base_page_free bitmap lo ≡ false
    → AreTaken bitmap (lo + page_size) hi
    → AreTaken bitmap lo hi
taken_next bitmap lo hi aligned e rest b low high below whole = elim (Bool-cases (lo == b)) [
  | inl same ↦
      let p : lo ≡ b = ground arith in subst (λ (x : ℕ). is_base_page_free bitmap x ≡ false) p e
  | inr more ↦
      let far : lo ≢ b = ground arith in
      rest b (omega (arith, low, far, aligned, whole)) high below whole
]

module _ (bitmap : ℕ → ℕ) where
  stop_round :
      (fuel lo : ℕ)
      → lo % page_size ≡ 0
      → (lo < page_space_top
          → Reaches bitmap (lo + page_size) (base_stop fuel bitmap (lo + page_size)))
      → Reaches bitmap lo (base_stop (suc fuel) bitmap lo)
  unfolding base_stop Reaches
  stop_round fuel lo aligned on = elim (Bool-cases (ltb lo page_space_top)) [
    | inr out ↦
        rw (out, base_stop)
          (
            omega arith,
            aligned,
            (λ h. absurd (ground arith)),
            λ b low high below whole. absurd (omega (arith, low, high)),
          )
    | inl within ↦ elim (Bool-cases (is_base_page_free bitmap lo)) [
      | inl free ↦
          rw (within, base_stop, free)
            (
              omega arith,
              aligned,
              (λ h. free),
              λ b low high below whole. absurd (omega (arith, low, high)),
            )
      | inr taken ↦
          rw (within, base_stop, taken)
            (widen taken (base_stop fuel bitmap (lo + page_size))
              (on (ltb→lt lo page_space_top within)))
    ]
  ]
    where
      widen :
          is_base_page_free bitmap lo ≡ false
          → (o : Option ℕ) → Reaches bitmap (lo + page_size) o
          → Reaches bitmap lo o
      widen taken none r = r
      widen taken (some p) r =
          (omega (arith, r.0), r.1, r.2, taken_next bitmap lo p aligned taken r.3)

  pub base_stop-IsStop :
      (fuel lo : ℕ)
      → lo % page_size ≡ 0
      → page_space_top ≤ lo + page_size * fuel
      → (p : ℕ) × (base_stop (suc fuel) bitmap lo ≡ some p) × IsStop bitmap lo p
  unfolding Reaches
  base_stop-IsStop fuel lo aligned reach =
      found (base_stop (suc fuel) bitmap lo) refl (reaches fuel lo aligned reach)
    where
      reaches :
          (fuel lo : ℕ)
          → lo % page_size ≡ 0
          → page_space_top ≤ lo + page_size * fuel
          → Reaches bitmap lo (base_stop (suc fuel) bitmap lo)
      reaches zero lo aligned reach =
          stop_round zero lo aligned (λ low. absurd (omega (arith, low, reach)))
      reaches (suc fuel) lo aligned reach =
          stop_round (suc fuel) lo aligned
            (λ low. reaches fuel (lo + page_size) (omega (arith, aligned)) (omega (arith, reach)))

      found :
          (o : Option ℕ)
          → base_stop (suc fuel) bitmap lo ≡ o
          → Reaches bitmap lo o
          → (p : ℕ) × (base_stop (suc fuel) bitmap lo ≡ some p) × IsStop bitmap lo p
      found none e r = absurd r
      found (some p) e r = (p, e, r)

  pub base_rounds-IsStop :
      (lo : ℕ)
      → lo % page_size ≡ 0
      → page_space_bottom ≤ lo
      → (p : ℕ) × (base_stop base_rounds bitmap lo ≡ some p) × IsStop bitmap lo p
  unfolding base_rounds
  base_rounds-IsStop lo aligned low = base_stop-IsStop 16384 lo aligned (omega (arith, low))
