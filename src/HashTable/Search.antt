-- ===== src/HashTable/Search.antt =====
-- A search looks at the nodes of one bucket in their order.
use zelda_os.Prelude.{
  ℕ, zero, suc, ◌<◌, ◌≡◌, refl, inl, inr, Bool, true, false, some, List, [], ◌∷◌, ◌++◌, arith, ◌==◌,
  if◌then◌else◌, ==_iff, Bool-cases, length,
}
use zelda_os.HashTable.{HashStub, bucket, search_from, search_hash_node}
use zelda_os.Links.{Ptr, null, Memory}
use zelda_os.Links.Chain.{has, first_or, Linked}
use zelda_os.Links.Shape.{IsList}

-- the first node that passes the test, or null
abbrev pub first_match : (Ptr → Bool) → List Ptr → Ptr
first_match test [] = null
first_match test (x ∷ xs) = if test x then x else first_match test xs

pub search_from-first_match :
    (fuel : ℕ) (m : Memory) (p : Ptr) (test : Ptr → Bool) (xs : List Ptr)
    → Linked m p xs null
    → has null xs ≡ false
    → length xs < fuel
    → search_from fuel m (first_or xs null) test ≡ some (first_match test xs)
unfolding search_from
search_from-first_match zero m p test xs l n f = absurd (omega arith)
search_from-first_match (suc fuel) m p test [] l n f = refl
search_from-first_match (suc fuel) m p test (x ∷ xs) l n f =
    let some_x : (x == null) ≡ false = ground arith in
    let rest = search_from-first_match fuel m x test xs l.2 (ground arith) (omega arith) in
    elim (Bool-cases (test x)) [
      | inl hit ↦ rw (some_x, hit)
      | inr miss ↦ rw (some_x, miss, l.1, rest)
    ]

pub first_match_append :
    (test : Ptr → Bool) (xs : List Ptr) (e : Ptr)
    → has null xs ≡ false
    → first_match test xs ≡ null
    → test e ≡ true
    → first_match test (xs ++ e ∷ []) ≡ e
first_match_append test [] e n none_yet hit = rw hit
first_match_append test (x ∷ xs) e n none_yet hit = elim (Bool-cases (test x)) [
  | inl t ↦ absurd (let at : x ≡ null = rw t at none_yet in ground arith)
  | inr miss ↦ rw miss (first_match_append test xs e (ground arith) (rw miss at none_yet) hit)
]

-- no node of the list passes the test
pub first_match_none :
    (test : Ptr → Bool) (xs : List Ptr)
    → ((a : Ptr) → has a xs ≡ true → test a ≡ false)
    → first_match test xs ≡ null
first_match_none test [] none_there = refl
first_match_none test (x ∷ xs) none_there =
    let self : (x == x) ≡ true = (==_iff x x).1 refl in
    let no : test x ≡ false = none_there x (rw self) in
    rw no (first_match_none test xs (λ a i. none_there a (ground arith)))

pub first_match_only :
    (test : Ptr → Bool) (ys : List Ptr) (e : Ptr) (zs : List Ptr)
    → test e ≡ true
    → ((a : Ptr) → has a (ys ++ zs) ≡ true → test a ≡ false)
    → first_match test (ys ++ e ∷ zs) ≡ e
first_match_only test [] e zs hit others = rw hit
first_match_only test (y ∷ ys) e zs hit others =
    let self : (y == y) ≡ true = (==_iff y y).1 refl in
    let miss : test y ≡ false = others y (rw self) in
    rw miss (first_match_only test ys e zs hit (λ a i. others a (ground arith)))

module _ {Key : Type 0} (hash : Key → ℕ) (identity : Ptr → Key → Bool) where
  -- With more fuel than the bucket of a key has nodes, `search_hash_node` returns the first node of
  -- the bucket that has the key, and null if none has.
  pub search_hash_node-first_match :
      (fuel : ℕ) (m : Memory) (stub : HashStub) (blob : Key) (xs : List Ptr)
      → IsList m (bucket stub (hash blob)) xs
      → length xs < fuel
      → search_hash_node hash identity fuel m stub blob
        ≡ some (first_match (λ node. identity node blob) xs)
  unfolding search_hash_node bucket
  search_hash_node-first_match fuel m stub blob xs l f = rw l.first (
      search_from-first_match fuel m null (λ node. identity node blob) xs l.links
        (let n = l.nonnull in ground arith) f)
