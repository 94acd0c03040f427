-- ===== src/Paging/Tables/Walk.antt =====
-- The walk of `virt2phy` through the directory and a table.
use zelda_os.Prelude.{
  ℕ, ◌+◌, ◌*◌, ◌%◌, ◌≡◌, refl, sym, ap, ◌∙◌, inl, inr, false, arith, ◌==◌, Bool-cases,
}
use zelda_os.Paging.Tables.{present, pg_frame, pde_at, pte_at, virt2phy, page_present}
use zelda_os.Paging.Tables.Words.{present-cases}
use zelda_os.Status.{ok}

module _ (memory : ℕ → ℕ) (dir v : ℕ) where
  pub virt2phy-no_table : present (memory (pde_at dir v)) ≡ 0 → virt2phy memory dir v ≡ 0
  unfolding virt2phy
  virt2phy-no_table e = rw (e, virt2phy) refl

  pub virt2phy-no_page : present (memory (pte_at memory dir v)) ≡ 0 → virt2phy memory dir v ≡ 0
  unfolding virt2phy
  virt2phy-no_page e = elim (Bool-cases (present (memory (pde_at dir v)) == 0)) [
    | inl z ↦ rw z refl
    | inr o ↦ rw (o, virt2phy, e) refl
  ]

  pub virt2phy-entry :
      (pte : ℕ)
      → present (memory (pde_at dir v)) ≡ 1
      → memory (pte_at memory dir v) ≡ pte
      → present pte ≡ 1
      → virt2phy memory dir v ≡ pg_frame pte * 4096 + v % 4096
  unfolding virt2phy
  virt2phy-entry pte e at p =
      let t : (present (memory (pde_at dir v)) == 0) ≡ false = ground (arith, e) in
      let u : (present pte == 0) ≡ false = ground (arith, p) in
      rw (t, virt2phy, at, virt2phy, u) refl

-- The walk reads two words.
pub virt2phy-kept :
    (old new : ℕ → ℕ) (dir v : ℕ)
    → new (pde_at dir v) ≡ old (pde_at dir v)
    → (present (old (pde_at dir v)) ≡ 1 → new (pte_at old dir v) ≡ old (pte_at old dir v))
    → virt2phy new dir v ≡ virt2phy old dir v
unfolding virt2phy
virt2phy-kept old new dir v d t = elim (present-cases (old (pde_at dir v))) [
  | inl absent ↦
      virt2phy-no_table new dir v (ap present d ∙ absent) ∙ sym (virt2phy-no_table old dir v absent)
  | inr there ↦ rw (d, virt2phy, t there) refl
]

pub page_present-entry :
    (memory : ℕ → ℕ) (dir v : ℕ) (pte : ℕ)
    → present (memory (pde_at dir v)) ≡ 1
    → memory (pte_at memory dir v) ≡ pte
    → present pte ≡ 1
    → page_present memory dir v ≡ ok
unfolding page_present
page_present-entry memory dir v pte e at p =
    let t : (present (memory (pde_at dir v)) == 0) ≡ false = ground (arith, e) in
    let u : (present pte == 0) ≡ false = ground (arith, p) in
    rw (t, page_present, at, page_present, u) refl
