-- ===== src/Links/Delete.antt =====
-- `list_delete`.
use zelda_os.Prelude.{
  ℕ, ◌<◌, ◌≡◌, refl, ◌∙◌, true, false, some, List, [], ◌∷◌, ◌++◌, arith, ◌==◌, ==_iff, length, done,
  panic,
}
use zelda_os.Links.{Ptr, null, Memory, set_prev, found_from, unlink, list_delete}
use zelda_os.Links.Chain.{
  has, first_or, last_or, has-append, has-last, last_or-append, last_or_join, ne_of_has,
  set_prev_ne, set_next_ne,
}
use zelda_os.Links.Shape.{IsList, Removed}
use zelda_os.Links.Cut.{bridged, detached, neighbours, dist, null_out, e_ne_head, before_out}
use zelda_os.Links.Cut.Pieces.{next-set_prev}
use zelda_os.Links.Cut.Writes.{set_prev-set_next}
use zelda_os.Links.Cut.Removes.{cut-Removed}
use zelda_os.Links.Walk.{found_from-has}

module _ (m : Memory) (h e : Ptr) where
  unlink-only : IsList m h (e ∷ []) → unlink m h e ≡ done (detached (bridged m h null null) e)
  unfolding unlink
  unlink-only l =
      let e_h : (e == h) ≡ false = e_ne_head m h e [] [] l in
      let self : (e == e) ≡ true = (==_iff e e).1 refl in
      simp (
        l.last,
        l.first,
        self,
        l.links.0,
        l.links.1,
        next-set_prev,
        set_prev_ne m h null e e_h,
        set_next_ne (set_prev m h null) h null e e_h,
      )

  unlink-first :
      (z : Ptr) (s : List Ptr)
      → IsList m h (e ∷ z ∷ s)
      → unlink m h e ≡ done (detached (bridged m h null z) e)
  unfolding unlink
  unlink-first z s l =
      let e_h : (e == h) ≡ false = e_ne_head m h e [] (z ∷ s) l in
      let self : (e == e) ≡ true = (==_iff e e).1 refl in
      let z_some : (z == null) ≡ false = let n = l.nonnull in ground arith in
      let e_z : (e == z) ≡ false = ground (arith, l.apart) in
      let end : (last_or z s == e) ≡ false =
        ne_of_has (last_or z s) e (z ∷ s) (has-last z s) l.apart.1.0 in
      simp (
        l.last,
        end,
        l.first,
        self,
        l.links.0,
        l.links.1,
        z_some,
        set_next_ne m h z e e_h,
        set_prev-set_next m h z z null,
        set_next_ne (set_prev m z null) h z e e_h,
        set_prev_ne m z null e e_z,
      )

  unlink-last :
      (y : Ptr) (s : List Ptr)
      → IsList m h ((y ∷ s) ++ e ∷ [])
      → unlink m h e ≡ done (detached (bridged m h (last_or y s) null) e)
  unfolding unlink
  unlink-last y s l =
      let e_h : (e == h) ≡ false = e_ne_head m h e (y ∷ s) [] l in
      let self : (e == e) ≡ true = (==_iff e e).1 refl in
      let around = neighbours m h e (y ∷ s) [] l in
      let tail : (m h).prev ≡ e = l.last ∙ last_or-append null (y ∷ s) e in
      let out = (null_out m h e (y ∷ s) [] l).0 in
      let before_some : (last_or y s == null) ≡ false =
        ne_of_has (last_or y s) null (y ∷ s) (has-last y s) out in
      let y_e : (y == e) ≡ false =
        ne_of_has y e (y ∷ s) (ground arith) (before_out m h e (y ∷ s) [] l) in
      simp (
        tail,
        self,
        around.0,
        around.1,
        next-set_prev,
        l.first,
        y_e,
        before_some,
        set_prev_ne m h (last_or y s) e e_h,
      )

  unlink-inner :
      (y : Ptr) (s : List Ptr) (z : Ptr) (t : List Ptr)
      → IsList m h ((y ∷ s) ++ e ∷ z ∷ t)
      → unlink m h e ≡ done (detached (bridged m h (last_or y s) z) e)
  unfolding unlink
  unlink-inner y s z t l =
      let around = neighbours m h e (y ∷ s) (z ∷ t) l in
      let parts = dist m h e (y ∷ s) (z ∷ t) l in
      let nulls = null_out m h e (y ∷ s) (z ∷ t) l in
      let z_some : (z == null) ≡ false = let n = nulls.1 in ground arith in
      let before_some : (last_or y s == null) ≡ false =
        ne_of_has (last_or y s) null (y ∷ s) (has-last y s) nulls.0 in
      let y_e : (y == e) ≡ false =
        ne_of_has y e (y ∷ s) (ground arith) (before_out m h e (y ∷ s) (z ∷ t) l) in
      let e_z : (e == z) ≡ false = let d = parts.1.0 in ground arith in
      let tail : (m h).prev ≡ last_or z t = l.last ∙ last_or_join null (y ∷ s) (e ∷ z ∷ t) in
      let end : (last_or z t == e) ≡ false =
        ne_of_has (last_or z t) e (z ∷ t) (has-last z t) parts.1.0 in
      simp (
        tail,
        end,
        l.first,
        y_e,
        around.0,
        around.1,
        z_some,
        set_prev_ne m z (last_or y s) e e_z,
        before_some,
      )

  -- whatever stands beside the node, `unlink` is the cut
  unlink_run :
      (ys zs : List Ptr)
      → IsList m h (ys ++ e ∷ zs)
      → unlink m h e ≡ done (detached (bridged m h (last_or null ys) (first_or zs null)) e)
  unlink_run [] [] l = unlink-only l
  unlink_run [] (z ∷ s) l = unlink-first z s l
  unlink_run (y ∷ s) [] l = unlink-last y s l
  unlink_run (y ∷ s) (z ∷ t) l = unlink-inner y s z t l

  -- With more fuel than the list has nodes, `list_delete` takes a node of the list out, wherever
  -- it stands: the walk finds it, no ASSERT fails, the others keep their order, the node is
  -- detached and nothing but the list is written.
  pub list_delete-Removed :
      (fuel : ℕ) (ys zs : List Ptr)
      → IsList m h (ys ++ e ∷ zs)
      → length (ys ++ e ∷ zs) < fuel
      → (n : Memory) × (list_delete fuel m h e ≡ some (done n))
        × Removed m h e (ys ++ e ∷ zs) (ys ++ zs) n
  unfolding list_delete
  list_delete-Removed fuel ys zs l f = (
    detached (bridged m h (last_or null ys) (first_or zs null)) e,
    rw (l.first, walk, inside, unlink_run ys zs l),
    cut-Removed m h e ys zs l,
  )
    where
      walk : found_from fuel m (first_or (ys ++ e ∷ zs) null) e ≡ some (has e (ys ++ e ∷ zs))
      walk =
          found_from-has fuel m null e (ys ++ e ∷ zs) l.links (let n = l.nonnull in ground arith) f

      inside : has e (ys ++ e ∷ zs) ≡ true
      inside = let s = has-append e ys (e ∷ zs) in ground arith

  -- Deleting a node that is not in the list fails the ASSERT.
  pub list_delete-panic :
      (fuel : ℕ) (xs : List Ptr)
      → IsList m h xs
      → length xs < fuel
      → has e xs ≡ false
      → list_delete fuel m h e ≡ some panic
  unfolding list_delete
  list_delete-panic fuel xs l f out =
      let walk = found_from-has fuel m null e xs l.links (let n = l.nonnull in ground arith) f in
      rw (l.first, walk, out)
