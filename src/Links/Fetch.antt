-- ===== src/Links/Fetch.antt =====
-- `list_fetch`.
use zelda_os.Prelude.{
  ◌≡◌, refl, sym, ap, ◌∙◌, false, List, [], ◌∷◌, arith, ◌==◌, Outcome, done, ◌>>◌, ensure, Ends,
}
use zelda_os.Links.{Elem, Ptr, null, Memory, set_prev, set_next, list_empty, list_fetch}
use zelda_os.Links.Chain.{first_or, last_or, has-last, ne_of_has, set_prev_ne, set_next_ne}
use zelda_os.Links.Shape.{IsList, Removed}
use zelda_os.Links.Cut.{bridged, detached, e_ne_head}
use zelda_os.Links.Cut.Pieces.{prev-set_next}
use zelda_os.Links.Cut.Writes.{set_prev-set_next, set_prev_same}
use zelda_os.Links.Cut.Removes.{cut-Removed}

pair : Ptr → Memory → Outcome (Ptr × Memory)
pair p m = done (p, m)

finish :
    (b : Memory) (x : Ptr)
    → (b x).prev ≡ null
    → ◌>>◌ {B = Ptr × Memory}
        (ensure ((set_next b x null x).prev == null))
        (done (x, set_next b x null))
      ≡ done (x, detached b x)
unfolding pair
finish b x h =
    rw (prev-set_next b x null x, h)
      (ap (λ (n : Memory). pair x (set_next n x null)) (sym (set_prev_same b x null h)))

fetch_run :
    (m : Memory) (h x : Ptr) (xs : List Ptr)
    → IsList m h (x ∷ xs)
    → list_fetch m h ≡ done (x, detached (bridged m h null (first_or xs null)) x)
unfolding list_fetch list_empty
fetch_run m h x [] l =
    let out = l.nonnull in
    let some_first : (x == null) ≡ false = ground arith in
    let e_h : (x == h) ≡ false = e_ne_head m h x [] [] l in
    simp (l.first, some_first, l.last, l.links.1)
      (rw (set_prev-set_next m h null h null) (
        finish (bridged m h null null) x (
          ap (λ (c : Elem). c.prev)
            (set_next_ne (set_prev m h null) h null x e_h ∙ set_prev_ne m h null x e_h)
          ∙ l.links.0)))
fetch_run m h x (y ∷ s) l =
    let out = l.nonnull in
    let some_first : (x == null) ≡ false = ground arith in
    let some_second : (y == null) ≡ false = ground arith in
    let some_last : (last_or y s == null) ≡ false =
      ne_of_has (last_or y s) null (y ∷ s) (has-last y s) (ground arith) in
    let e_h : (x == h) ≡ false = e_ne_head m h x [] (y ∷ s) l in
    let e_y : (x == y) ≡ false = ground (arith, l.apart) in
    simp (l.first, some_first, l.last, some_last, l.links.1, some_second)
      (rw (set_prev-set_next m h y y null) (
        finish (set_next (set_prev m y null) h y) x (
          ap (λ (c : Elem). c.prev)
            (set_next_ne (set_prev m y null) h y x e_h ∙ set_prev_ne m y null x e_y)
          ∙ l.links.0)))

-- what `list_fetch` returns on a list that starts with `x`
abbrev pub Fetched : Memory → Ptr → Ptr → List Ptr → Ptr × Memory → Type 0
Fetched m h x xs (p, n) = (p ≡ x) × Removed m h x (x ∷ xs) xs n

-- `list_fetch` takes the first node off a list that is not empty and detaches it, and writes to
-- nothing but the list.
pub list_fetch-cons :
    (m : Memory) (h x : Ptr) (xs : List Ptr)
    → IsList m h (x ∷ xs)
    → Ends (list_fetch m h) (Fetched m h x xs)
list_fetch-cons m h x xs l = rw (fetch_run m h x xs l) (refl, cut-Removed m h x [] xs l)

-- On an empty list it returns NULL and writes nothing.
pub list_fetch-nil : (m : Memory) (h : Ptr) → IsList m h [] → list_fetch m h ≡ done (null, m)
unfolding list_fetch list_empty
list_fetch-nil m h l = let f = l.first in ground arith
