-- ===== src/KernelVma/Search.antt =====
-- `search_kernel_vma` and what it says about the slots.
use zelda_os.Prelude.{
  ℕ, zero, suc, ◌<◌, ◌≡◌, refl, inl, inr, Bool, true, false, ◌&&◌, ◌||◌, Option, none, some, [],
  ◌∷◌, arith, Bool-cases, length, get_or,
}
use zelda_os.KernelVma.{KernelVma, Table, covers, search_kernel_vma, no_vma}

-- the slot is in use and contains the address
abbrev pub holds : KernelVma → ℕ → Bool
holds v a = v.present && covers v a

-- some slot does
abbrev pub is_taken : Table → ℕ → Bool
is_taken [] a = false
is_taken (v ∷ vs) a = holds v a || is_taken vs a

abbrev pub Found : Table → ℕ → Option KernelVma → Type 0
Found vs a none = is_taken vs a ≡ false
Found vs a (some v) =
    (holds v a ≡ true)
    × (i : ℕ) × (i < length vs)
    × (get_or vs i no_vma ≡ v)
    × ((j : ℕ) → j < i → holds (get_or vs j no_vma) a ≡ false)

Found-skip :
    (v : KernelVma) (vs : Table) (a : ℕ) (o : Option KernelVma)
    → holds v a ≡ false
    → Found vs a o
    → Found (v ∷ vs) a o
Found-skip v vs a none off f = rw off f
Found-skip v vs a (some w) off (h, i, low, at, before) = (h, suc i, omega arith, at, earlier)
  where
    earlier : (j : ℕ) → j < suc i → holds (get_or (v ∷ vs) j no_vma) a ≡ false
    earlier zero l = off
    earlier (suc j) l = before j (omega arith)

-- `search_kernel_vma` returns the first area in use that contains the address, and NULL exactly if
-- there is none.
pub search_kernel_vma-Found : (vs : Table) (a : ℕ) → Found vs a (search_kernel_vma vs a)
unfolding search_kernel_vma
search_kernel_vma-Found [] a = refl
search_kernel_vma-Found (v ∷ vs) a = elim (Bool-cases v.present) [
  | inr absent ↦
      let off : holds v a ≡ false = rw absent in
      simp absent (Found-skip v vs a (search_kernel_vma vs a) off (search_kernel_vma-Found vs a))
  | inl used ↦ elim (Bool-cases (covers v a)) [
    | inl hit ↦ simp (used, hit) (refl, 0, omega arith, refl, λ j l. absurd (omega arith))
    | inr miss ↦
        let off : holds v a ≡ false = simp (used, miss) in
        simp (used, miss)
          (Found-skip v vs a (search_kernel_vma vs a) off (search_kernel_vma-Found vs a))
  ]
]
