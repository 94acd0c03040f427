-- ===== src/Links/Cut/Removes.antt =====
-- A cut leaves the list without the node.
use zelda_os.Prelude.{
  ◌≡◌, ap, ◌∙◌, inl, inr, true, false, List, [], ◌∷◌, ◌++◌, arith, ◌==◌, Bool-cases,
}
use zelda_os.Links.{Elem, Ptr, null, Memory, set_prev}
use zelda_os.Links.Chain.{
  has, Distinct, first_or, last_or, Linked, has-append, has-last, Distinct-join, Linked-split,
  Linked-join, Linked-frame, set_next-SameOn, set_prev-SameOn, ne_of_has, ==_flip, set_prev_ne,
  set_next_ne, set_prev_self, set_next_self,
}
use zelda_os.Links.Shape.{IsList, SameOff, Removed}
use zelda_os.Links.Cut.{
  side, bridged, detached, dist, head_out, null_out, e_ne_head, side-before, side-after,
}
use zelda_os.Links.Cut.Pieces.{
  left_links, right_links, head_next, head_prev, next-set_prev, prev-set_next,
}

module _ (m : Memory) (h e : Ptr) (ys zs : List Ptr) (l : IsList m h (ys ++ e ∷ zs)) where
  abbrev before : Ptr
  before = last_or null ys

  abbrev after : Ptr
  after = first_or zs null

  abbrev m₁ : Memory
  m₁ = set_prev m (side h after) before

  abbrev m₂ : Memory
  m₂ = bridged m h before after

  abbrev m₃ : Memory
  m₃ = set_prev m₂ e null

  parts : Distinct ys × Distinct (e ∷ zs) × ((a : Ptr) → has a ys ≡ true → has a (e ∷ zs) ≡ false)
  parts = dist m h e ys zs l

  outs : (has null ys ≡ false) × (has null (e ∷ zs) ≡ false) × ((null == h) ≡ false)
  outs = null_out m h e ys zs l

  heads : (has h ys ≡ false) × (has h (e ∷ zs) ≡ false)
  heads = head_out m h e ys zs l

  apart_back : (a : Ptr) → has a zs ≡ true → has a ys ≡ false
  apart_back a i = elim (Bool-cases (has a ys)) [
    | inl in_ys ↦ let o = parts.2 a in_ys in absurd (ground arith)
    | inr out ↦ out
  ]

  right_out : has (side h after) ys ≡ false
  right_out = go zs (ground (arith, outs)) apart_back
    where
      go :
          (zs : List Ptr)
          → has null zs ≡ false
          → ((a : Ptr) → has a zs ≡ true → has a ys ≡ false)
          → has (side h (first_or zs null)) ys ≡ false
      go [] n o = heads.0
      go (z ∷ s) n o =
          let some_first : (z == null) ≡ false = ground arith in rw some_first (o z (ground arith))

  left_out : has (side h before) zs ≡ false
  left_out = go ys outs.0 parts.2
    where
      go :
          (ys : List Ptr)
          → has null ys ≡ false
          → ((a : Ptr) → has a ys ≡ true → has a (e ∷ zs) ≡ false)
          → has (side h (last_or null ys)) zs ≡ false
      go [] n o = let q = heads.1 in ground arith
      go (y ∷ s) n o =
          let i = has-last y s in
          let some_last : (last_or y s == null) ≡ false =
            ne_of_has (last_or y s) null (y ∷ s) i n in
          let q = o (last_or y s) i in rw some_last (ground arith)

  e_outs : (has e ys ≡ false) × (has e zs ≡ false)
  e_outs = elim (Bool-cases (has e ys)) [
    | inl i ↦ let o = parts.2 e i in absurd (ground arith)
    | inr o ↦ (o, parts.1.0)
  ]

  spare :
      (p : Ptr) (xs : List Ptr) (q : Ptr)
      → has e xs ≡ false
      → Linked m₂ p xs q
      → Linked (detached m₂ e) p xs q
  spare p xs q o k =
      Linked-frame m₃ (detached m₂ e) p xs q (set_next-SameOn m₃ e null xs o)
        (Linked-frame m₂ m₃ p xs q (set_prev-SameOn m₂ e null xs o) k)

  cut-links : Linked (detached m₂ e) null (ys ++ zs) null
  cut-links =
      Linked-join (detached m₂ e) null ys zs null
        (spare null ys after e_outs.0 (
          left_links m₁ h null ys e after outs.0 parts.0 (
            Linked-frame m m₁ null ys e (set_prev-SameOn m (side h after) before ys right_out)
              run.0)))
        (spare before zs null e_outs.1 (
          Linked-frame m₁ m₂ before zs null (set_next-SameOn m₁ (side h before) after zs left_out)
            (right_links m h e zs null before (ground (arith, outs)) parts.1.1 run.1.2)))
    where
      run : Linked m null ys e × Linked m before (e ∷ zs) null
      run = Linked-split m null ys (e ∷ zs) null l.links

  at_head : detached m₂ e h ≡ m₂ h
  at_head =
      let ne = ==_flip e h (e_ne_head m h e ys zs l) in
      set_next_ne m₃ e null h ne ∙ set_prev_ne m₂ e null h ne

  cut-IsList : IsList (detached m₂ e) h (ys ++ zs)
  cut-IsList = record {
    apart = (
      has-append h ys zs ∙ ground (arith, heads),
      Distinct-join ys zs parts.0 parts.1.1 (λ a i. let o = parts.2 a i in ground arith),
    );
    nonnull = has-append null (h ∷ ys) zs ∙ ground (arith, outs);
    first =
        ap (λ (c : Elem). c.next) at_head
        ∙ head_next m₁ h e ys zs (next-set_prev m (side h after) before h ∙ l.first) outs.0 heads.0;
    last =
        ap (λ (c : Elem). c.prev) at_head
        ∙ prev-set_next m₁ (side h before) after h
        ∙ head_prev m h e ys zs l.last (ground (arith, outs)) (ground (arith, heads));
    links = cut-links;
  }

  cut-SameOff : SameOff (h ∷ (ys ++ e ∷ zs)) m (detached m₂ e)
  cut-SameOff a o =
      let s = has-append a ys (e ∷ zs) in
      let a_h : (a == h) ≡ false = ground arith in
      let a_e : (a == e) ≡ false = ground arith in
      set_next_ne m₃ e null a a_e
      ∙ set_prev_ne m₂ e null a a_e
      ∙ set_next_ne m₁ (side h before) after a (side-before m h e ys zs l a a_h (ground arith))
      ∙ set_prev_ne m (side h after) before a (side-after m h e ys zs l a a_h (ground arith))

  -- After the neighbours are bridged and the node is detached, memory holds the list without it.
  pub cut-Removed : Removed m h e (ys ++ e ∷ zs) (ys ++ zs) (detached m₂ e)
  cut-Removed = (
    cut-IsList,
    record {
      no_prev = prev-set_next m₃ e null e ∙ ap (λ (c : Elem). c.prev) (set_prev_self m₂ e null);
      no_next = ap (λ (c : Elem). c.next) (set_next_self m₃ e null);
    },
    cut-SameOff,
  )
