-- ===== src/Links/Chain.antt =====
-- Runs of nodes that point at one another, and how single writes change them.
use zelda_os.Prelude.{
  ℕ, ◌≡◌, refl, sym, ◌∙◌, inl, inr, Bool, true, false, ◌||◌, List, [], ◌∷◌, ◌++◌, arith, ◌==◌,
  ==_iff, Bool-cases,
}
use zelda_os.Links.{Ptr, Memory, set_prev, set_next}

abbrev pub has : Ptr → List Ptr → Bool
has a [] = false
has a (x ∷ xs) = (a == x) || has a xs

abbrev pub Distinct : List Ptr → Type 0
Distinct [] = Unit
Distinct (x ∷ xs) = (has x xs ≡ false) × Distinct xs

abbrev pub first_or : List Ptr → Ptr → Ptr
first_or [] q = q
first_or (x ∷ xs) q = x

abbrev pub last_or : Ptr → List Ptr → Ptr
last_or p [] = p
last_or p (x ∷ xs) = last_or x xs

-- the nodes `xs` in order, with `p` before the first and `q` behind the last
abbrev pub Linked : Memory → Ptr → List Ptr → Ptr → Type 0
Linked m p [] q = Unit
Linked m p (x ∷ xs) q = ((m x).prev ≡ p) × ((m x).next ≡ first_or xs q) × Linked m x xs q

-- `n` agrees with `m` on the nodes of `xs`
abbrev pub SameOn : List Ptr → Memory → Memory → Type 0
SameOn xs m n = (a : Ptr) → has a xs ≡ true → n a ≡ m a

pub has-append : (a : Ptr) (xs ys : List Ptr) → has a (xs ++ ys) ≡ (has a xs || has a ys)
has-append a [] ys = refl
has-append a (x ∷ xs) ys = ground (arith, has-append a xs ys)

pub has-last : (x : Ptr) (xs : List Ptr) → has (last_or x xs) (x ∷ xs) ≡ true
has-last x [] = ground arith
has-last x (y ∷ xs) = ground (arith, has-last y xs)

pub last_or-append : (p : Ptr) (xs : List Ptr) (y : Ptr) → last_or p (xs ++ y ∷ []) ≡ y
last_or-append p [] y = refl
last_or-append p (x ∷ xs) y = last_or-append x xs y

pub first_or-append :
    (xs ys : List Ptr) (q : Ptr) → first_or (xs ++ ys) q ≡ first_or xs (first_or ys q)
first_or-append [] ys q = refl
first_or-append (x ∷ xs) ys q = refl

pub last_or_join : (p : Ptr) (xs ys : List Ptr) → last_or p (xs ++ ys) ≡ last_or (last_or p xs) ys
last_or_join p [] ys = refl
last_or_join p (x ∷ xs) ys = last_or_join x xs ys

pub Distinct-append :
    (xs ys : List Ptr)
    → Distinct (xs ++ ys)
    → Distinct xs × Distinct ys × ((a : Ptr) → has a xs ≡ true → has a ys ≡ false)
Distinct-append [] ys d = (tt, d, λ a h. cc)
Distinct-append (x ∷ xs) ys (out, d) =
    let (dx, dy, apart) = Distinct-append xs ys d in
    let split = has-append x xs ys in
    (
      (ground arith, dx),
      dy,
      λ a h. elim (Bool-cases (a == x)) [
        | inl e ↦ let same : a ≡ x = (==_iff a x).0 e in rw same (ground arith)
        | inr ne ↦ apart a (ground arith)
      ],
    )

pub Distinct-join :
    (xs ys : List Ptr)
    → Distinct xs
    → Distinct ys
    → ((a : Ptr) → has a xs ≡ true → has a ys ≡ false)
    → Distinct (xs ++ ys)
Distinct-join [] ys dx dy apart = dy
Distinct-join (x ∷ xs) ys (out, dx) dy apart = (
  rw (has-append x xs ys, out) (apart x (ground arith)),
  Distinct-join xs ys dx dy (λ a h. apart a (ground arith)),
)

pub Linked-split :
    (m : Memory) (p : Ptr) (xs ys : List Ptr) (q : Ptr)
    → Linked m p (xs ++ ys) q
    → Linked m p xs (first_or ys q) × Linked m (last_or p xs) ys q
Linked-split m p [] ys q l = (tt, l)
Linked-split m p (x ∷ xs) ys q (a, b, l) =
    let (lx, ly) = Linked-split m x xs ys q l in ((a, b ∙ first_or-append xs ys q, lx), ly)

pub Linked-join :
    (m : Memory) (p : Ptr) (xs ys : List Ptr) (q : Ptr)
    → Linked m p xs (first_or ys q)
    → Linked m (last_or p xs) ys q
    → Linked m p (xs ++ ys) q
Linked-join m p [] ys q l k = k
Linked-join m p (x ∷ xs) ys q (a, b, l) k =
    (a, b ∙ sym (first_or-append xs ys q), Linked-join m x xs ys q l k)

pub Linked-frame :
    (m n : Memory) (p : Ptr) (xs : List Ptr) (q : Ptr)
    → SameOn xs m n
    → Linked m p xs q
    → Linked n p xs q
Linked-frame m n p [] q same l = tt
Linked-frame m n p (x ∷ xs) q same (a, b, l) =
    let here = same x (ground arith) in
    (rw here a, rw here b, Linked-frame m n x xs q (λ c h. same c (ground arith)) l)

-- A write to a node outside a run spares it.
pub set_next-SameOn :
    (m : Memory) (p v : Ptr) (xs : List Ptr) → has p xs ≡ false → SameOn xs m (set_next m p v)
unfolding set_next
set_next-SameOn m p v xs out a h = elim (Bool-cases (a == p)) [
  | inl e ↦ let same : a ≡ p = (==_iff a p).0 e in absurd (ground arith)
  | inr ne ↦ rw ne
]

pub set_prev-SameOn :
    (m : Memory) (p v : Ptr) (xs : List Ptr) → has p xs ≡ false → SameOn xs m (set_prev m p v)
unfolding set_prev
set_prev-SameOn m p v xs out a h = elim (Bool-cases (a == p)) [
  | inl e ↦ let same : a ≡ p = (==_iff a p).0 e in absurd (ground arith)
  | inr ne ↦ rw ne
]

-- Redirecting the last node of a run.
pub Linked-set_next :
    (m : Memory) (p x : Ptr) (xs : List Ptr) (q r : Ptr)
    → Distinct (x ∷ xs)
    → Linked m p (x ∷ xs) q
    → Linked (set_next m (last_or x xs) r) p (x ∷ xs) r
unfolding set_next
Linked-set_next m p x [] q r d (a, b, l) = (ground arith, ground arith, tt)
Linked-set_next m p x (y ∷ ys) q r (out, d) (a, b, l) =
    let ne : (x == last_or y ys) ≡ false = elim (Bool-cases (x == last_or y ys)) [
      | inl e ↦
          let same : x ≡ last_or y ys = (==_iff x (last_or y ys)).0 e in
          let inside = has-last y ys in absurd (ground arith)
      | inr n ↦ n
    ] in
    (rw ne a, rw ne b, Linked-set_next m x y ys q r d l)

-- Redirecting the first node of a run backwards.
pub Linked-set_prev :
    (m : Memory) (p x : Ptr) (xs : List Ptr) (q r : Ptr)
    → has x xs ≡ false
    → Linked m p (x ∷ xs) q
    → Linked (set_prev m x r) r (x ∷ xs) q
Linked-set_prev m p x xs q r out (a, b, l) = (
  unfold set_prev in ground arith,
  unfold set_prev in ground arith,
  Linked-frame m (set_prev m x r) x xs q (set_prev-SameOn m x r xs out) l,
)

pub ne_of_has : (a b : Ptr) (xs : List Ptr) → has a xs ≡ true → has b xs ≡ false → (a == b) ≡ false
ne_of_has a b xs i o = elim (Bool-cases (a == b)) [
  | inl e ↦ let same : a ≡ b = (==_iff a b).0 e in absurd (ground arith)
  | inr n ↦ n
]

pub ==_flip : (a b : ℕ) → (a == b) ≡ false → (b == a) ≡ false
==_flip a b h = ground arith

-- What single writes leave and make, address by address.
pub set_prev_ne : (m : Memory) (p v a : Ptr) → (a == p) ≡ false → set_prev m p v a ≡ m a
unfolding set_prev
set_prev_ne m p v a ne = rw ne

pub set_next_ne : (m : Memory) (p v a : Ptr) → (a == p) ≡ false → set_next m p v a ≡ m a
unfolding set_next
set_next_ne m p v a ne = rw ne

pub set_prev_self : (m : Memory) (p v : Ptr) → set_prev m p v p ≡ record (m p) { prev = v }
unfolding set_prev
set_prev_self m p v = rw ((==_iff p p).1 refl)

pub set_next_self : (m : Memory) (p v : Ptr) → set_next m p v p ≡ record (m p) { next = v }
unfolding set_next
set_next_self m p v = rw ((==_iff p p).1 refl)
