-- ===== src/Links/Cut/Pieces.antt =====
-- How bridging a node changes the two runs beside it, and the head.
use zelda_os.Prelude.{◌≡◌, sym, ap, subst, ◌∙◌, false, List, [], ◌∷◌, ◌++◌, append-nil, arith, ◌==◌}
use zelda_os.Links.{Elem, Ptr, null, Memory, set_prev, set_next}
use zelda_os.Links.Chain.{
  has, Distinct, first_or, last_or, Linked, has-last, last_or_join, Linked-set_next,
  Linked-set_prev, ne_of_has, ==_flip, set_prev_ne, set_next_ne, set_prev_self, set_next_self,
}
use zelda_os.Links.Cut.{side}

pub side_some : (h p : Ptr) → (p == null) ≡ false → side h p ≡ p
side_some h p n = rw n

-- redirecting the end of a run that may be empty
pub left_links :
    (m : Memory) (h p : Ptr) (ys : List Ptr) (q r : Ptr)
    → has null ys ≡ false
    → Distinct ys
    → Linked m p ys q
    → Linked (set_next m (side h (last_or null ys)) r) p ys r
left_links m h p [] q r n d l = tt
left_links m h p (y ∷ s) q r n d l =
    let some_last : (last_or y s == null) ≡ false =
      ne_of_has (last_or y s) null (y ∷ s) (has-last y s) n in
    subst (λ (k : Ptr). Linked (set_next m k r) p (y ∷ s) r)
      (sym (side_some h (last_or y s) some_last)) (Linked-set_next m p y s q r d l)

pub right_links :
    (m : Memory) (h p : Ptr) (zs : List Ptr) (q r : Ptr)
    → has null zs ≡ false
    → Distinct zs
    → Linked m p zs q
    → Linked (set_prev m (side h (first_or zs null)) r) r zs q
right_links m h p [] q r n d l = tt
right_links m h p (z ∷ s) q r n d l =
    let some_first : (z == null) ≡ false = ground arith in
    subst (λ (k : Ptr). Linked (set_prev m k r) r (z ∷ s) q) (sym (side_some h z some_first))
      (Linked-set_prev m p z s q r d.0 l)

-- what the head points at afterwards
pub head_next :
    (m : Memory) (h e : Ptr) (ys zs : List Ptr)
    → (m h).next ≡ first_or (ys ++ e ∷ zs) null
    → has null ys ≡ false
    → has h ys ≡ false
    → (set_next m (side h (last_or null ys)) (first_or zs null) h).next ≡ first_or (ys ++ zs) null
head_next m h e [] zs f n o = ap (λ (c : Elem). c.next) (set_next_self m h (first_or zs null))
head_next m h e (y ∷ s) zs f n o =
    let inside = has-last y s in
    let some_last : (last_or y s == null) ≡ false = ne_of_has (last_or y s) null (y ∷ s) inside n in
    rw some_last (
      ap (λ (c : Elem). c.next)
        (set_next_ne m (last_or y s) (first_or zs null) h
          (==_flip (last_or y s) h (ne_of_has (last_or y s) h (y ∷ s) inside o)))
      ∙ f)

pub head_prev :
    (m : Memory) (h e : Ptr) (ys zs : List Ptr)
    → (m h).prev ≡ last_or null (ys ++ e ∷ zs)
    → has null zs ≡ false
    → has h zs ≡ false
    → (set_prev m (side h (first_or zs null)) (last_or null ys) h).prev ≡ last_or null (ys ++ zs)
head_prev m h e ys [] f n o =
    ap (λ (c : Elem). c.prev) (set_prev_self m h (last_or null ys))
    ∙ ap (last_or null) (sym (append-nil ys))
head_prev m h e ys (z ∷ s) f n o =
    let some_first : (z == null) ≡ false = ground arith in
    rw some_first (
      ap (λ (c : Elem). c.prev) (set_prev_ne m z (last_or null ys) h (ground arith))
      ∙ f
      ∙ last_or_join null ys (e ∷ z ∷ s)
      ∙ sym (last_or_join null ys (z ∷ s)))

pub next-set_prev : (m : Memory) (p v a : Ptr) → (set_prev m p v a).next ≡ (m a).next
unfolding set_prev
next-set_prev m p v a = ground arith

pub prev-set_next : (m : Memory) (p v a : Ptr) → (set_next m p v a).prev ≡ (m a).prev
unfolding set_next
prev-set_next m p v a = ground arith
