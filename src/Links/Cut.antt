-- ===== src/Links/Cut.antt =====
-- The effect that taking a node out of a list has, whichever of `list_delete`, `list_fetch` and
-- `list_pop` does it.
pub mod Writes
pub mod Pieces
pub mod Removes
use zelda_os.Prelude.{
  ◌≡◌, inl, inr, true, false, List, [], ◌∷◌, ◌++◌, arith, ◌==◌, if◌then◌else◌, Bool-cases,
}
use zelda_os.Links.{Ptr, null, Memory, set_prev, set_next}
use zelda_os.Links.Chain.{
  has, Distinct, first_or, last_or, Linked, has-append, has-last, Distinct-append, Linked-split,
  ne_of_has, ==_flip,
}
use zelda_os.Links.Shape.{IsList}

-- whose `next` (or `prev`) field leads to the node: a neighbour, or the head at an end
abbrev pub side : Ptr → Ptr → Ptr
side h p = if p == null then h else p

-- `before` and `after` are the neighbours of `e`, null at an end
abbrev pub bridged : Memory → (h before after : Ptr) → Memory
bridged m h before after = set_next (set_prev m (side h after) before) (side h before) after

abbrev pub detached : Memory → Ptr → Memory
detached m e = set_next (set_prev m e null) e null

module _ (m : Memory) (h e : Ptr) (ys zs : List Ptr) (l : IsList m h (ys ++ e ∷ zs)) where
  abbrev before : Ptr
  before = last_or null ys

  abbrev after : Ptr
  after = first_or zs null

  pieces : Linked m null ys e × Linked m before (e ∷ zs) null
  pieces = Linked-split m null ys (e ∷ zs) null l.links

  pub neighbours : ((m e).prev ≡ before) × ((m e).next ≡ after)
  neighbours = (pieces.1.0, pieces.1.1)

  pub dist :
      Distinct ys × Distinct (e ∷ zs) × ((a : Ptr) → has a ys ≡ true → has a (e ∷ zs) ≡ false)
  dist = Distinct-append ys (e ∷ zs) l.apart.1

  pub head_out : (has h ys ≡ false) × (has h (e ∷ zs) ≡ false)
  head_out = let s = has-append h ys (e ∷ zs) in let o = l.apart.0 in (ground arith, ground arith)

  pub null_out : (has null ys ≡ false) × (has null (e ∷ zs) ≡ false) × ((null == h) ≡ false)
  null_out =
      let s = has-append null ys (e ∷ zs) in
      let o = l.nonnull in (ground arith, ground arith, ground arith)

  pub e_ne_head : (e == h) ≡ false
  e_ne_head = let o = head_out.1 in ground arith

  pub before_out : has e ys ≡ false
  before_out = elim (Bool-cases (has e ys)) [
    | inl i ↦ let o = dist.2 e i in absurd (ground arith)
    | inr o ↦ o
  ]

  -- the left side is the head or in `ys`, the right side the head or in `zs`
  pub side-before : (a : Ptr) → (a == h) ≡ false → has a ys ≡ false → (a == side h before) ≡ false
  side-before = go ys null_out.0
    where
      go :
          (ys : List Ptr)
          → has null ys ≡ false
          → (a : Ptr) → (a == h) ≡ false
          → has a ys ≡ false
          → (a == side h (last_or null ys)) ≡ false
      go [] n a p q = p
      go (y ∷ s) n a p q =
          let some_last : (last_or y s == null) ≡ false =
            ne_of_has (last_or y s) null (y ∷ s) (has-last y s) n in
          rw some_last
            (==_flip (last_or y s) a (ne_of_has (last_or y s) a (y ∷ s) (has-last y s) q))

  pub side-after : (a : Ptr) → (a == h) ≡ false → has a zs ≡ false → (a == side h after) ≡ false
  side-after = go zs (let o = null_out.1 in ground arith)
    where
      go :
          (zs : List Ptr)
          → has null zs ≡ false
          → (a : Ptr) → (a == h) ≡ false
          → has a zs ≡ false
          → (a == side h (first_or zs null)) ≡ false
      go [] n a p q = p
      go (z ∷ s) n a p q =
          let some_first : (z == null) ≡ false = ground arith in rw some_first (ground arith)
