-- ===== src/CStr/Compare.antt =====
-- What the comparisons and searches decide.
use zelda_os.Prelude.{
  ℕ, zero, suc, ◌+◌, ◌<◌, ◌≡◌, refl, sym, ap₂, ◌≢◌, ◌↔◌, inl, inr, Option, none, some, List, [],
  ◌∷◌, arith, ◌==◌, ==_iff, Bool-cases, length, get_or, take,
}
use zelda_os.CStr.{strcmp, strchr_from, strchr, start_with}

-- a string has no NUL
abbrev pub NoNul : List ℕ → Type 0
NoNul [] = Unit
NoNul (c ∷ cs) = (c ≢ 0) × NoNul cs

-- `strcmp` returns zero exactly for equal strings.
pub strcmp_iff : (s t : List ℕ) → NoNul s → NoNul t → ((strcmp s t).0 ≡ (strcmp s t).1) ↔ (s ≡ t)
unfolding strcmp
strcmp_iff [] [] ns nt = (λ e. refl, λ e. refl)
strcmp_iff [] (d ∷ ds) ns nt = let n = nt.0 in (λ e. absurd (n (sym e)), λ e. absurd (ground arith))
strcmp_iff (c ∷ cs) [] ns nt = let n = ns.0 in (λ e. absurd (n e), λ e. absurd (ground arith))
strcmp_iff (c ∷ cs) (d ∷ ds) ns nt = elim (Bool-cases (c == d)) [
  | inl same ↦
      let (to, from) = strcmp_iff cs ds ns.1 nt.1 in
      let e : c ≡ d = (==_iff c d).0 same in
      rw same
        (λ r. ap₂ (λ (x : ℕ) (xs : List ℕ). x ∷ xs) e (to r), λ p. from (let q = p in ground arith))
  | inr other ↦ rw other (λ r. absurd (ground arith), λ p. absurd (ground arith))
]

-- `start_with` returns zero exactly if the one string, of no NUL, is a prefix of the other.
pub start_with_iff :
    (target sub : List ℕ)
    → NoNul sub
    → (start_with target sub ≡ 0) ↔ (take (length sub) target ≡ sub)
unfolding start_with
start_with_iff [] [] n = (λ e. refl, λ e. refl)
start_with_iff (t ∷ ts) [] n = (λ e. refl, λ e. refl)
start_with_iff [] (c ∷ cs) n = let m = n.0 in (λ e. absurd (m e), λ e. absurd (ground arith))
start_with_iff (t ∷ ts) (c ∷ cs) n = elim (Bool-cases (t == c)) [
  | inl same ↦
      let (to, from) = start_with_iff ts cs n.1 in
      let e : t ≡ c = (==_iff t c).0 same in
      rw same
        (λ r. ap₂ (λ (x : ℕ) (xs : List ℕ). x ∷ xs) e (to r), λ p. from (let q = p in ground arith))
  | inr other ↦ let m = n.0 in rw other (λ r. absurd (m r), λ p. absurd (ground arith))
]

-- `i` is the first place of the byte in the string
abbrev pub IsFirstAt : ℕ → List ℕ → ℕ → Type 0
IsFirstAt target cs i =
    (i < length cs) × (get_or cs i 0 ≡ target) × ((j : ℕ) → j < i → get_or cs j 0 ≢ target)

abbrev pub Found : ℕ → List ℕ → ℕ → Option ℕ → Type 0
Found target cs index none = (j : ℕ) → j < length cs → get_or cs j 0 ≢ target
Found target cs index (some k) = (i : ℕ) × (k ≡ index + i) × IsFirstAt target cs i

Found-skip :
    (target c : ℕ) (cs : List ℕ) (index : ℕ) (o : Option ℕ)
    → c ≢ target
    → Found target cs (index + 1) o
    → Found target (c ∷ cs) index o
Found-skip target c cs index none other f = out
  where
    out : (j : ℕ) → j < length (c ∷ cs) → get_or (c ∷ cs) j 0 ≢ target
    out zero l = other
    out (suc j) l = f j (omega arith)
Found-skip target c cs index (some k) other (i, e, (low, at, before)) =
    (suc i, omega arith, (omega arith, at, earlier))
  where
    earlier : (j : ℕ) → j < suc i → get_or (c ∷ cs) j 0 ≢ target
    earlier zero l = other
    earlier (suc j) l = before j (omega arith)

strchr_from-Found :
    (index : ℕ) (cs : List ℕ) (target : ℕ) → Found target cs index (strchr_from index cs target)
unfolding strchr_from
strchr_from-Found index [] target = λ j l. absurd (omega arith)
strchr_from-Found index (c ∷ cs) target = elim (Bool-cases (c == target)) [
  | inl same ↦
      rw same (0, omega arith, (omega arith, (==_iff c target).0 same, λ j l. absurd (omega arith)))
  | inr other ↦ rw other (
      Found-skip target c cs index (strchr_from (index + 1) cs target) (ground arith)
        (strchr_from-Found (index + 1) cs target))
]

-- `strchr` returns the index of the first occurrence of the byte, and -1 exactly if there is none.
pub strchr-Found : (str : List ℕ) (target : ℕ) → Found target str 0 (strchr str target)
unfolding strchr
strchr-Found str target = strchr_from-Found 0 str target
