-- ===== src/Links/Walk.antt =====
-- The walk over a list, and `element_in_list`.
use zelda_os.Prelude.{
  ℕ, zero, suc, ◌<◌, ◌≡◌, refl, sym, ap, ◌∙◌, inl, inr, Bool, true, false, not, ◌&&◌, some, List,
  [], ◌∷◌, ◌++◌, arith, ◌==◌, ==_iff, Bool-cases, length,
}
use zelda_os.Links.{Ptr, null, Memory, found_from, element_in_list}
use zelda_os.Links.Chain.{has, first_or, last_or, Linked, has-last, ne_of_has}
use zelda_os.Links.Shape.{IsList}
use zelda_os.Links.Cut.{neighbours, null_out}

-- a node of a list has a part of the list before it and a part behind it
pub has-split :
    (e : Ptr) (xs : List Ptr)
    → has e xs ≡ true
    → (ys : List Ptr) × (zs : List Ptr) × (xs ≡ ys ++ e ∷ zs)
has-split e [] i = absurd (ground arith)
has-split e (x ∷ xs) i = elim (Bool-cases (e == x)) [
  | inl same ↦ ([], xs, ap (λ k. k ∷ xs) (sym ((==_iff e x).0 same)))
  | inr other ↦ let (ys, zs, p) = has-split e xs (ground arith) in (x ∷ ys, zs, ap (λ r. x ∷ r) p)
]

-- With more fuel than there are nodes, the walk ends and finds exactly the nodes of the list.
pub found_from-has :
    (fuel : ℕ) (m : Memory) (p e : Ptr) (xs : List Ptr)
    → Linked m p xs null
    → has null xs ≡ false
    → length xs < fuel
    → found_from fuel m (first_or xs null) e ≡ some (has e xs)
unfolding found_from
found_from-has zero m p e xs l n f = absurd (omega arith)
found_from-has (suc fuel) m p e [] l n f = refl
found_from-has (suc fuel) m p e (x ∷ xs) l n f =
    let some_x : (x == null) ≡ false = ground arith in
    let rest = found_from-has fuel m x e xs l.2 (ground arith) (omega arith) in
    rw (some_x, l.1, rest) (ground arith)

is_isolated : Memory → Ptr → Ptr → Bool
is_isolated m h e =
    ((m e).next == null) && ((m e).prev == null) && not ((m h).next == e) && not ((m h).prev == e)

isolated_parts :
    (m : Memory) (h e : Ptr)
    → is_isolated m h e ≡ true
    → ((m e).prev ≡ null) × (((m h).next == e) ≡ false)
unfolding is_isolated
isolated_parts m h e q = ground arith

isolated_apart :
    (m : Memory) (h e : Ptr) (ys zs : List Ptr)
    → IsList m h (ys ++ e ∷ zs)
    → (m e).prev ≡ null
    → ((m h).next == e) ≡ false
    → ⊥
isolated_apart m h e [] zs l p f = let g = l.first in ground arith
isolated_apart m h e (y ∷ s) zs l p f =
    let back : last_or y s ≡ null = sym (neighbours m h e (y ∷ s) zs l).0 ∙ p in
    let some_last =
      ne_of_has (last_or y s) null (y ∷ s) (has-last y s) (null_out m h e (y ∷ s) zs l).0 in
    absurd_of back some_last
  where
    absurd_of : last_or y s ≡ null → (last_or y s == null) ≡ false → ⊥
    absurd_of b o = ground arith

isolated_out :
    (m : Memory) (h e : Ptr) (xs : List Ptr)
    → IsList m h xs
    → is_isolated m h e ≡ true
    → has e xs ≡ false
isolated_out m h e xs l q = elim (Bool-cases (has e xs)) [
  | inr o ↦ o
  | inl i ↦
      let (ys, zs, p) = has-split e xs i in
      let (back, front) = isolated_parts m h e q in
      absurd (isolated_apart m h e ys zs (rw p at l) back front)
]

-- With more fuel than the list has nodes, `element_in_list` says whether a node is in the list:
-- its shortcut for a node with no neighbours agrees with the walk.
pub element_in_list-has :
    (fuel : ℕ) (m : Memory) (h e : Ptr) (xs : List Ptr)
    → IsList m h xs
    → length xs < fuel
    → element_in_list fuel m h e ≡ some (has e xs)
unfolding element_in_list is_isolated
element_in_list-has fuel m h e xs l f = elim (Bool-cases (is_isolated m h e)) [
  | inl q ↦ rw (q, isolated_out m h e xs l q)
  | inr q ↦
      rw (q, l.first)
        (found_from-has fuel m null e xs l.links (let n = l.nonnull in ground arith) f)
]
