-- ===== src/Links/Append.antt =====
-- `list_append`.
use zelda_os.Prelude.{
  ◌≡◌, refl, sym, ap, ◌∙◌, inl, inr, false, List, [], ◌∷◌, ◌++◌, arith, ◌==◌, ==_iff, Bool-cases,
  done, Ends,
}
use zelda_os.Links.{Elem, Ptr, null, Memory, set_prev, set_next, list_append}
use zelda_os.Links.Chain.{
  has, last_or, Linked, has-append, has-last, last_or-append, Distinct-join, Linked-join,
  Linked-frame, set_prev-SameOn, Linked-set_next, ne_of_has, ==_flip, set_prev_ne, set_next_ne,
  set_prev_self,
}
use zelda_os.Links.Shape.{IsList, IsNew, SameOff, Inserted}

append-nil_run :
    (m : Memory) (h e : Ptr)
    → IsList m h []
    → IsNew m h e []
    → list_append m h e ≡ done (set_prev (set_next m h e) h e)
unfolding list_append set_prev set_next
append-nil_run m h e l new =
    let d = new.detached in
    let first = l.first in let last = l.last in simp (d.no_prev, d.no_next, first) (ground arith)

append-cons_run :
    (m : Memory) (h e x : Ptr) (xs : List Ptr)
    → IsList m h (x ∷ xs)
    → IsNew m h e (x ∷ xs)
    → list_append m h e
      ≡ done (set_prev (set_next (set_prev m e (last_or x xs)) (last_or x xs) e) h e)
unfolding list_append
append-cons_run m h e x xs l new =
    let d = new.detached in
    let out = l.nonnull in
    let inside = has-last x xs in
    let some_first : (x == null) ≡ false = ground arith in
    let some_last : (last_or x xs == null) ≡ false = elim (Bool-cases (last_or x xs == null)) [
      | inl z ↦ let same : last_or x xs ≡ null = (==_iff _ _).0 z in absurd (ground arith)
      | inr n ↦ n
    ] in
    simp (d.no_prev, d.no_next, l.first, some_first, l.last, some_last)

append-nil :
    (m : Memory) (h e : Ptr)
    → IsList m h []
    → IsNew m h e []
    → Ends (list_append m h e) (Inserted m h e [] (e ∷ []))
append-nil m h e l new = rw (append-nil_run m h e l new) (
    unfold set_prev set_next in
    (
      record {
        apart = (ground (arith, new.outside), (refl, tt));
        nonnull = let a = l.nonnull in let b = new.nonnull in ground arith;
        first = ground arith;
        last = ground arith;
        links =
            let d = new.detached in
            let o = new.outside in (ground (arith, d.no_prev), ground (arith, d.no_next), tt);
      },
      λ a o. ground arith,
    ))

module _ (m : Memory) (h e x : Ptr) (xs : List Ptr) (l : IsList m h (x ∷ xs))
    (new : IsNew m h e (x ∷ xs)) where
  abbrev tail : Ptr
  tail = last_or x xs

  abbrev m₁ : Memory
  m₁ = set_prev m e tail

  abbrev m₂ : Memory
  m₂ = set_next m₁ tail e

  abbrev m₃ : Memory
  m₃ = set_prev m₂ h e

  e_out : has e (x ∷ xs) ≡ false
  e_out = ground (arith, new.outside)

  tail_h : (tail == h) ≡ false
  tail_h = ne_of_has tail h (x ∷ xs) (has-last x xs) l.apart.0

  e_h : (e == h) ≡ false
  e_h = ground (arith, new.outside)

  tail_e : (tail == e) ≡ false
  tail_e = ne_of_has tail e (x ∷ xs) (has-last x xs) e_out

  cons-links : Linked m₃ null ((x ∷ xs) ++ e ∷ []) null
  cons-links =
      Linked-join m₃ null (x ∷ xs) (e ∷ []) null
        (Linked-frame m₂ m₃ null (x ∷ xs) e (set_prev-SameOn m₂ h e (x ∷ xs) l.apart.0) (
          Linked-set_next m₁ null x xs null e l.apart.1 (
            Linked-frame m m₁ null (x ∷ xs) null (set_prev-SameOn m e tail (x ∷ xs) e_out)
              l.links)))
        (rw at_e, rw at_e new.detached.no_next, tt)
    where
      at_e : m₃ e ≡ record (m e) { prev = tail }
      at_e =
          set_prev_ne m₂ h e e e_h
          ∙ set_next_ne m₁ tail e e (==_flip tail e tail_e)
          ∙ set_prev_self m e tail

  cons-rest : SameOff (h ∷ e ∷ x ∷ xs) m m₃
  cons-rest a o =
      set_prev_ne m₂ h e a (ground arith)
      ∙ set_next_ne m₁ tail e a
          (==_flip tail a (ne_of_has tail a (x ∷ xs) (has-last x xs) (ground arith)))
      ∙ set_prev_ne m e tail a (ground arith)

  append-cons : Ends (list_append m h e) (Inserted m h e (x ∷ xs) ((x ∷ xs) ++ e ∷ []))
  append-cons = rw (append-cons_run m h e x xs l new) (
    record {
      apart = (
        has-append h (x ∷ xs) (e ∷ []) ∙ ground (arith, l.apart, new.outside),
        Distinct-join (x ∷ xs) (e ∷ []) l.apart.1 (refl, tt)
            (λ a i. let ne = ne_of_has a e (x ∷ xs) i e_out in ground arith),
      );
      nonnull =
          let a = l.nonnull in
          let b = new.nonnull in has-append null (h ∷ x ∷ xs) (e ∷ []) ∙ ground arith;
      first = ap (λ (c : Elem). c.next) at_h ∙ l.first;
      last = ap (λ (c : Elem). c.prev) at_h ∙ sym (last_or-append null (x ∷ xs) e);
      links = cons-links;
    },
    cons-rest,
  )
    where
      at_h : m₃ h ≡ record (m h) { prev = e }
      at_h =
          set_prev_self m₂ h e
          ∙ ap (λ (c : Elem). record c { prev = e })
              (set_next_ne m₁ tail e h (==_flip tail h tail_h)
                ∙ set_prev_ne m e tail h (==_flip e h e_h))

-- `list_append` puts a detached node that is not in the list behind the others, and writes to
-- nothing but the list and the node.
pub list_append-IsList :
    (m : Memory) (h e : Ptr) (xs : List Ptr)
    → IsList m h xs
    → IsNew m h e xs
    → Ends (list_append m h e) (Inserted m h e xs (xs ++ e ∷ []))
list_append-IsList m h e [] l new = append-nil m h e l new
list_append-IsList m h e (x ∷ xs) l new = append-cons m h e x xs l new
