-- ===== src/WaitQueue/Members.antt =====
-- Entering and leaving a wait queue.
use zelda_os.Prelude.{
  ℕ, ◌<◌, ◌≡◌, refl, sym, subst, inl, inr, true, false, List, [], ◌∷◌, ◌++◌, arith, ◌==◌,
  if◌then◌else◌, ==_iff, Bool-cases, length, Yields,
}
use zelda_os.Links.{Ptr, Memory, list_delete}
use zelda_os.Links.Chain.{has}
use zelda_os.Links.Shape.{IsList, IsNew, SameOff}
use zelda_os.Links.Append.{list_append-IsList}
use zelda_os.Links.Cut.{before_out}
use zelda_os.Links.Walk.{has-split, element_in_list-has}
use zelda_os.Links.Delete.{list_delete-Removed}
use zelda_os.WaitQueue.{add_wait_queue_entry, remove_wait_queue_entry}

-- With more fuel than the queue has entries, an entry that is already queued stays where it is,
-- and a detached one goes to the end of the queue; nothing but the queue and the entry is written.
pub add_wait_queue_entry-IsList :
    (fuel : ℕ) (m : Memory) (h e : Ptr) (xs : List Ptr)
    → IsList m h xs
    → length xs < fuel
    → (has e xs ≡ false → IsNew m h e xs)
    → Yields
        (add_wait_queue_entry fuel m h e)
        (λ n. IsList n h (if has e xs then xs else xs ++ e ∷ []) × SameOff (h ∷ e ∷ xs) m n)
unfolding add_wait_queue_entry
add_wait_queue_entry-IsList fuel m h e xs l f new = elim (Bool-cases (has e xs)) [
  | inl i ↦ rw (element_in_list-has fuel m h e xs l f, add_wait_queue_entry, i) (l, λ a o. refl)
  | inr o ↦
      rw (element_in_list-has fuel m h e xs l f, add_wait_queue_entry, o)
        (list_append-IsList m h e xs l (new o))
]

-- the nodes without `e`
pub without : Ptr → List Ptr → List Ptr
without e [] = []
without e (x ∷ xs) = if e == x then xs else x ∷ without e xs

without-split :
    (e : Ptr) (ys zs : List Ptr) → has e ys ≡ false → without e (ys ++ e ∷ zs) ≡ ys ++ zs
unfolding without
without-split e [] zs o = let self : (e == e) ≡ true = (==_iff e e).1 refl in rw self
without-split e (y ∷ ys) zs o =
    let ne : (e == y) ≡ false = ground arith in rw (ne, without-split e ys zs (ground arith))

without_none : (e : Ptr) (xs : List Ptr) → has e xs ≡ false → without e xs ≡ xs
unfolding without
without_none e [] o = refl
without_none e (x ∷ xs) o =
    let ne : (e == x) ≡ false = ground arith in rw (ne, without_none e xs (ground arith))

-- With more fuel than the queue has entries, removing an entry takes it out of the queue if it is
-- there, and leaves the order of the others and all other memory alone; it never panics.
pub remove_wait_queue_entry-IsList :
    (fuel : ℕ) (m : Memory) (h e : Ptr) (xs : List Ptr)
    → IsList m h xs
    → length xs < fuel
    → Yields
        (remove_wait_queue_entry fuel m h e)
        (λ n. IsList n h (without e xs) × SameOff (h ∷ xs) m n)
unfolding remove_wait_queue_entry
remove_wait_queue_entry-IsList fuel m h e xs l f = elim (Bool-cases (has e xs)) [
  | inr o ↦
      rw (element_in_list-has fuel m h e xs l f, remove_wait_queue_entry, o, without_none e xs o)
        (l, λ a q. refl)
  | inl i ↦
      let (ys, zs, p) = has-split e xs i in
      rw (element_in_list-has fuel m h e xs l f, remove_wait_queue_entry, i)
        (subst
          (λ (k : List Ptr).
            Yields (list_delete fuel m h e) (λ n. IsList n h (without e k) × SameOff (h ∷ k) m n))
          (sym p) (deleted ys zs (rw p at l) (rw p at f)))
]
  where
    deleted :
        (ys zs : List Ptr)
        → IsList m h (ys ++ e ∷ zs)
        → length (ys ++ e ∷ zs) < fuel
        → Yields
            (list_delete fuel m h e)
            (λ n. IsList n h (without e (ys ++ e ∷ zs)) × SameOff (h ∷ (ys ++ e ∷ zs)) m n)
    deleted ys zs k g =
        let (n, run, removed) = list_delete-Removed m h e fuel ys zs k g in
        rw (run, without-split e ys zs (before_out m h e ys zs k)) (removed.0, removed.2)
