-- ===== src/KernelVma/Nearest.antt =====
-- The inner loop of `search_free_kernel_virtual_address`: the nearest area above an address.
use zelda_os.Prelude.{
  ℕ, zero, suc, ◌+◌, ◌≤◌, ◌<◌, ◌≡◌, sym, subst, ◌≢◌, inl, inr, Bool, true, false, not, ◌&&◌, ◌||◌,
  Option, none, some, [], ◌∷◌, arith, leb, ◌==◌, if◌then◌else◌, Bool-cases, length, get_or,
}
use zelda_os.KernelVma.{KernelVma, Table, no_vma, nearest}

abbrev pub AtMost : Option ℕ → ℕ → Type 0
AtMost none x = ⊥
AtMost (some b) x = b ≤ x

abbrev pub Within : Option ℕ → (low high : ℕ) → Type 0
Within none low high = Unit
Within (some b) low high = (low ≤ b) × (b ≤ high)

abbrev is_closer : Option ℕ → ℕ → Bool
is_closer none a = true
is_closer (some b) a = leb a b

-- one round of the inner loop
abbrev pick : (skip start idx : ℕ) → Option ℕ → KernelVma → Option ℕ
pick skip start idx best v =
    if (idx == skip) || not v.present
    then best
    else if leb start v.virt_addr && is_closer best v.virt_addr
    then some v.virt_addr
    else best

nearest-pick :
    (skip start idx : ℕ) (best : Option ℕ) (v : KernelVma) (vs : Table)
    → nearest skip start idx best (v ∷ vs)
      ≡ nearest skip start (idx + 1) (pick skip start idx best v) vs
unfolding nearest
nearest-pick skip start idx none v vs = elim (Bool-cases ((idx == skip) || not v.present)) [
  | inl out ↦ simp out
  | inr counts ↦ elim (Bool-cases (leb start v.virt_addr)) [
    | inl above ↦ simp (counts, above)
    | inr below ↦ simp (counts, below)
  ]
]
nearest-pick skip start idx (some b) v vs = elim (Bool-cases ((idx == skip) || not v.present)) [
  | inl out ↦ simp out
  | inr counts ↦ elim (Bool-cases (leb start v.virt_addr && leb v.virt_addr b)) [
    | inl closer ↦ simp (counts, closer)
    | inr further ↦ simp (counts, further)
  ]
]

pick-AtMost :
    (skip start idx : ℕ) (best : Option ℕ) (v : KernelVma) (x : ℕ)
    → AtMost best x
    → AtMost (pick skip start idx best v) x
pick-AtMost skip start idx none v x h = absurd h
pick-AtMost skip start idx (some b) v x h = elim (Bool-cases ((idx == skip) || not v.present)) [
  | inl out ↦ simp out h
  | inr counts ↦ elim (Bool-cases (leb start v.virt_addr && leb v.virt_addr b)) [
    | inl closer ↦ simp (counts, closer) (ground arith)
    | inr further ↦ simp (counts, further) h
  ]
]

pick-counts :
    (skip start idx : ℕ) (best : Option ℕ) (v : KernelVma)
    → idx ≢ skip
    → v.present ≡ true
    → start ≤ v.virt_addr
    → AtMost (pick skip start idx best v) v.virt_addr
pick-counts skip start idx none v other used above =
    let counts : ((idx == skip) || not v.present) ≡ false = ground arith in
    let over : leb start v.virt_addr ≡ true = ground arith in simp (counts, over) (omega arith)
pick-counts skip start idx (some b) v other used above =
    let counts : ((idx == skip) || not v.present) ≡ false = ground arith in
    let over : leb start v.virt_addr ≡ true = ground arith in
    elim (Bool-cases (leb v.virt_addr b)) [
      | inl closer ↦ simp (counts, over, closer) (omega arith)
      | inr further ↦ simp (counts, over, further) (ground arith)
    ]

pick-Within :
    (skip start idx : ℕ) (best : Option ℕ) (v : KernelVma) (high : ℕ)
    → (v.present ≡ true → v.virt_addr ≤ high)
    → Within best start high
    → Within (pick skip start idx best v) start high
pick-Within skip start idx best v high low w = elim (Bool-cases ((idx == skip) || not v.present)) [
  | inl out ↦ simp out w
  | inr counts ↦ elim (Bool-cases (leb start v.virt_addr && is_closer best v.virt_addr)) [
    | inl closer ↦ let bound = low (ground arith) in simp (counts, closer) (ground arith, bound)
    | inr further ↦ simp (counts, further) w
  ]
]

nearest-AtMost :
    (skip start idx : ℕ) (best : Option ℕ) (vs : Table) (x : ℕ)
    → AtMost best x
    → AtMost (nearest skip start idx best vs) x
unfolding nearest
nearest-AtMost skip start idx best [] x h = h
nearest-AtMost skip start idx best (v ∷ vs) x h =
    subst (λ o. AtMost o x) (sym (nearest-pick skip start idx best v vs))
      (nearest-AtMost skip start (idx + 1) (pick skip start idx best v) vs x
        (pick-AtMost skip start idx best v x h))

pub nearest-counts :
    (skip start idx : ℕ) (best : Option ℕ) (vs : Table) (j : ℕ)
    → j < length vs
    → idx + j ≢ skip
    → (get_or vs j no_vma).present ≡ true
    → start ≤ (get_or vs j no_vma).virt_addr
    → AtMost (nearest skip start idx best vs) (get_or vs j no_vma).virt_addr
nearest-counts skip start idx best [] j low other used above = absurd (omega arith)
nearest-counts skip start idx best (v ∷ vs) zero low other used above =
    subst (λ o. AtMost o v.virt_addr) (sym (nearest-pick skip start idx best v vs))
      (nearest-AtMost skip start (idx + 1) (pick skip start idx best v) vs v.virt_addr
        (pick-counts skip start idx best v (omega arith) used above))
nearest-counts skip start idx best (v ∷ vs) (suc j) low other used above =
    subst (λ o. AtMost o (get_or vs j no_vma).virt_addr)
      (sym (nearest-pick skip start idx best v vs))
      (nearest-counts skip start (idx + 1) (pick skip start idx best v) vs j (omega arith)
        (omega arith) used above)

pub nearest-Within :
    (skip start idx : ℕ) (best : Option ℕ) (vs : Table) (high : ℕ)
    → ((j : ℕ)
        → j < length vs
        → (get_or vs j no_vma).present ≡ true
        → (get_or vs j no_vma).virt_addr ≤ high)
    → Within best start high
    → Within (nearest skip start idx best vs) start high
unfolding nearest
nearest-Within skip start idx best [] high low w = w
nearest-Within skip start idx best (v ∷ vs) high low w =
    subst (λ o. Within o start high) (sym (nearest-pick skip start idx best v vs))
      (nearest-Within skip start (idx + 1) (pick skip start idx best v) vs high
        (λ j l. low (suc j) (omega arith))
        (pick-Within skip start idx best v high (low 0 (omega arith)) w))
