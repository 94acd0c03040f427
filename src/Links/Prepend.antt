-- ===== src/Links/Prepend.antt =====
-- `list_prepend`.
use zelda_os.Prelude.{
  ◌≡◌, refl, ap, ◌∙◌, true, false, List, [], ◌∷◌, arith, ◌==◌, ==_iff, done, Ends,
}
use zelda_os.Links.{Elem, Ptr, null, Memory, set_prev, set_next, list_prepend}
use zelda_os.Links.Chain.{
  has, last_or, has-last, Linked-frame, set_next-SameOn, Linked-set_prev, ne_of_has, ==_flip,
  set_prev_ne, set_next_ne, set_next_self,
}
use zelda_os.Links.Shape.{IsList, IsNew, Inserted}

prepend-nil :
    (m : Memory) (h e : Ptr)
    → IsList m h []
    → IsNew m h e []
    → Ends (list_prepend m h e) (Inserted m h e [] (e ∷ []))
unfolding list_prepend set_prev set_next
prepend-nil m h e l new =
    let d = new.detached in
    let first = l.first in
    let last = l.last in
    let out = new.outside in
    let e_h : (e == h) ≡ false = ground (arith, new.outside) in
    let self : (h == h) ≡ true = (==_iff h h).1 refl in
    simp (d.no_prev, d.no_next, first, last, self)
      (
        record {
          apart = (ground arith, (refl, tt));
          nonnull = let a = l.nonnull in let b = new.nonnull in ground arith;
          first = ground arith;
          last = ground arith;
          links = (ground (arith, d.no_prev), ground (arith, d.no_next), tt);
        },
        λ a o. ground arith,
      )

module _ (m : Memory) (h e x : Ptr) (xs : List Ptr) (l : IsList m h (x ∷ xs))
    (new : IsNew m h e (x ∷ xs)) where
  abbrev m₁ : Memory
  m₁ = set_next m e x

  abbrev m₂ : Memory
  m₂ = set_prev m₁ x e

  abbrev m₃ : Memory
  m₃ = set_next m₂ h e

  e_out : has e (x ∷ xs) ≡ false
  e_out = ground (arith, new.outside)

  e_h : (e == h) ≡ false
  e_h = ground (arith, new.outside)

  e_x : (e == x) ≡ false
  e_x = ground (arith, new.outside)

  h_x : (h == x) ≡ false
  h_x = ground (arith, l.apart)

  -- the write to the head leaves `head->prev` as it was
  at_h : m₃ h ≡ record (m h) { next = e }
  at_h =
      set_next_self m₂ h e
      ∙ ap (λ (c : Elem). record c { next = e })
          (set_prev_ne m₁ x e h h_x ∙ set_next_ne m e x h (==_flip e h e_h))

  at_e : m₃ e ≡ record (m e) { next = x }
  at_e = set_next_ne m₂ h e e e_h ∙ set_prev_ne m₁ x e e e_x ∙ set_next_self m e x

  run : list_prepend m h e ≡ done m₃
  unfolding list_prepend
  run =
      let d = new.detached in
      let out = l.nonnull in
      let some_first : (x == null) ≡ false = ground arith in
      let kept : (m₃ h).prev ≡ last_or x xs = ap (λ (c : Elem). c.prev) at_h ∙ l.last in
      let some_last : (last_or x xs == null) ≡ false =
        ne_of_has (last_or x xs) null (x ∷ xs) (has-last x xs) (ground arith) in
      simp (d.no_prev, d.no_next, l.first, some_first, kept, some_last)

  prepend-cons : Ends (list_prepend m h e) (Inserted m h e (x ∷ xs) (e ∷ x ∷ xs))
  prepend-cons = rw run (
    record {
      apart = (ground (arith, l.apart), (e_out, l.apart.1));
      nonnull = let a = l.nonnull in let b = new.nonnull in ground arith;
      first = ap (λ (c : Elem). c.next) at_h;
      last = ap (λ (c : Elem). c.prev) at_h ∙ l.last;
      links = (
        ap (λ (c : Elem). c.prev) at_e ∙ new.detached.no_prev,
        ap (λ (c : Elem). c.next) at_e,
        Linked-frame m₂ m₃ e (x ∷ xs) null (set_next-SameOn m₂ h e (x ∷ xs) l.apart.0) (
            Linked-set_prev m₁ null x xs null e l.apart.1.0 (
              Linked-frame m m₁ null (x ∷ xs) null (set_next-SameOn m e x (x ∷ xs) e_out) l.links)),
      );
    },
    λ a o.
        set_next_ne m₂ h e a (ground arith)
        ∙ set_prev_ne m₁ x e a (ground arith)
        ∙ set_next_ne m e x a (ground arith),
  )

-- `list_prepend` puts a new node in front of the others, and writes to nothing but the list and the
-- node.
pub list_prepend-IsList :
    (m : Memory) (h e : Ptr) (xs : List Ptr)
    → IsList m h xs
    → IsNew m h e xs
    → Ends (list_prepend m h e) (Inserted m h e xs (e ∷ xs))
list_prepend-IsList m h e [] l new = prepend-nil m h e l new
list_prepend-IsList m h e (x ∷ xs) l new = prepend-cons m h e x xs l new
