-- ===== src/Links/Pop.antt =====
-- `list_pop`.
use zelda_os.Prelude.{
  ◌≡◌, refl, sym, ap, subst, ◌∙◌, inl, inr, false, List, [], ◌∷◌, ◌++◌, append-nil, arith, ◌==◌,
  Bool-cases, Outcome, done, ◌>>◌, ensure, Ends,
}
use zelda_os.Links.{Elem, Ptr, null, Memory, set_prev, set_next, list_empty, list_pop}
use zelda_os.Links.Chain.{
  has, last_or, has-last, last_or-append, ne_of_has, ==_flip, set_prev_ne, set_next_ne,
}
use zelda_os.Links.Shape.{IsList, Removed}
use zelda_os.Links.Cut.{bridged, detached, neighbours, dist, null_out, e_ne_head}
use zelda_os.Links.Cut.Pieces.{next-set_prev}
use zelda_os.Links.Cut.Writes.{set_next_same}
use zelda_os.Links.Cut.Removes.{cut-Removed}

pair : Ptr → Memory → Outcome (Ptr × Memory)
pair p m = done (p, m)

finish :
    (b : Memory) (x : Ptr)
    → (b x).next ≡ null
    → ◌>>◌ {B = Ptr × Memory}
        (ensure ((set_prev b x null x).next == null))
        (done (x, set_prev b x null))
      ≡ done (x, detached b x)
unfolding pair
finish b x h =
    let kept : (set_prev b x null x).next ≡ null = next-set_prev b x null x ∙ h in
    rw kept (ap (λ (n : Memory). pair x n) (sym (set_next_same (set_prev b x null) x null kept)))

pop_run :
    (m : Memory) (h x : Ptr) (ys : List Ptr)
    → IsList m h (ys ++ x ∷ [])
    → list_pop m h ≡ done (x, detached (bridged m h (last_or null ys) null) x)
unfolding list_pop list_empty
pop_run m h x [] l =
    let out = l.nonnull in
    let some_first : (x == null) ≡ false = ground arith in
    let e_h : (x == h) ≡ false = e_ne_head m h x [] [] l in
    simp (l.first, some_first, l.last, l.links.0)
      (finish (bridged m h null null) x (
        ap (λ (c : Elem). c.next)
          (set_next_ne (set_prev m h null) h null x e_h ∙ set_prev_ne m h null x e_h)
        ∙ l.links.1))
pop_run m h x (y ∷ s) l =
    let (no_null, x_some, _) = null_out m h x (y ∷ s) [] l in
    let some_first : (y == null) ≡ false = ground arith in
    let some_x : (x == null) ≡ false = ground arith in
    let some_last : (last_or y s == null) ≡ false =
      ne_of_has (last_or y s) null (y ∷ s) (has-last y s) no_null in
    let e_h : (x == h) ≡ false = e_ne_head m h x (y ∷ s) [] l in
    let around = neighbours m h x (y ∷ s) [] l in
    let e_last : (x == last_or y s) ≡ false =
      ==_flip (last_or y s) x (ne_of_has (last_or y s) x (y ∷ s) (has-last y s) (x_fresh l)) in
    let tail : (m h).prev ≡ x = l.last ∙ last_or-append null (y ∷ s) x in
    simp (l.first, some_first, tail, some_x, around.0, some_last)
      (finish (set_next (set_prev m h (last_or y s)) (last_or y s) null) x (
        ap (λ (c : Elem). c.next)
          (set_next_ne (set_prev m h (last_or y s)) (last_or y s) null x e_last
            ∙ set_prev_ne m h (last_or y s) x e_h)
        ∙ around.1))
  where
    x_fresh : IsList m h ((y ∷ s) ++ x ∷ []) → has x (y ∷ s) ≡ false
    x_fresh k = elim (Bool-cases (has x (y ∷ s))) [
      | inl i ↦ let o = (dist m h x (y ∷ s) [] k).2 x i in absurd (ground arith)
      | inr o ↦ o
    ]

-- what `list_pop` returns on a list that ends with `x`
abbrev pub Popped : Memory → Ptr → Ptr → List Ptr → Ptr × Memory → Type 0
Popped m h x ys (p, n) = (p ≡ x) × Removed m h x (ys ++ x ∷ []) ys n

-- `list_pop` takes the last node off a list that is not empty and detaches it, and writes to
-- nothing but the list.
pub list_pop-snoc :
    (m : Memory) (h x : Ptr) (ys : List Ptr)
    → IsList m h (ys ++ x ∷ [])
    → Ends (list_pop m h) (Popped m h x ys)
list_pop-snoc m h x ys l = rw (pop_run m h x ys l) (
  refl,
  subst
      (λ (zs : List Ptr).
        Removed m h x (ys ++ x ∷ []) zs (detached (bridged m h (last_or null ys) null) x))
      (append-nil ys) (cut-Removed m h x ys [] l),
)
