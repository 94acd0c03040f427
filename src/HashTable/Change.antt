-- ===== src/HashTable/Change.antt =====
-- Adding and deleting nodes of a table.
use zelda_os.Prelude.{
  ℕ, ◌+◌, ◌<◌, ◌≡◌, refl, ap, ◌∙◌, ◌≢◌, Bool, true, false, Option, some, List, [], ◌∷◌, ◌++◌, arith,
  ◌==◌, if◌then◌else◌, length, length-append, Outcome, done, panic, Ends, Yields,
}
use zelda_os.Status.{Status, ok, err_not_present, err_exist}
use zelda_os.HashTable.{
  HashStub, bucket, walked, changed, search_hash_node, add_hash_node, delete_hash_node,
}
use zelda_os.HashTable.Search.{
  first_match, first_match_append, first_match_none, first_match_only, search_hash_node-first_match,
}
use zelda_os.Links.{Ptr, null, Memory, list_node_detached, list_append}
use zelda_os.Links.Chain.{has, first_or, has-append}
use zelda_os.Links.Shape.{IsList, IsNew, Inserted, Removed}
use zelda_os.Links.Append.{list_append-IsList}
use zelda_os.Links.Delete.{list_delete-Removed}
use zelda_os.Links.Cut.{dist, before_out}

changed_ends :
    (o : Outcome Memory) (P : Memory → Type 0) (Q : Status × Memory → Type 0)
    (k : Memory → Option (Outcome (Status × Memory)))
    → Ends o P
    → ((n : Memory) → P n → Yields (k n) Q)
    → Yields (changed (some o) k) Q
unfolding changed
changed_ends (done n) P Q k h next = next n h
changed_ends panic P Q k h next = absurd h

module _ {Key : Type 0} (hash : Key → ℕ) (identity : Ptr → Key → Bool) where
  -- With enough fuel for the bucket and one node more, `add_hash_node` puts a detached node that
  -- has the key at the end of the bucket of the key if no node there has it, and the key is found
  -- afterwards at the new node; it writes to nothing but the bucket and the node, and no ASSERT
  -- fails.
  pub add_hash_node-IsList :
      (fuel : ℕ) (m : Memory) (stub : HashStub) (blob : Key) (e : Ptr) (xs : List Ptr)
      → IsList m (bucket stub (hash blob)) xs
      → length xs + 1 < fuel
      → IsNew m (bucket stub (hash blob)) e xs
      → identity e blob ≡ true
      → first_match (λ node. identity node blob) xs ≡ null
      → Yields (add_hash_node hash identity fuel m stub blob e) (λ r.
        (r.0 ≡ ok)
        × Inserted m (bucket stub (hash blob)) e xs (xs ++ e ∷ []) r.1
        × (search_hash_node hash identity fuel r.1 stub blob ≡ some e))
  unfolding add_hash_node walked
  add_hash_node-IsList fuel m stub blob e xs l f new own none_yet =
      let first = search_hash_node-first_match hash identity fuel m stub blob xs l (omega arith) in
      rw (own, first, add_hash_node, none_yet)
        (changed_ends (list_append m (bucket stub (hash blob)) e)
          (Inserted m (bucket stub (hash blob)) e xs (xs ++ e ∷ [])) _ _
          (list_append-IsList m (bucket stub (hash blob)) e xs l new) found_again)
    where
      found_again :
          (n : Memory)
          → Inserted m (bucket stub (hash blob)) e xs (xs ++ e ∷ []) n
          → Yields {A = Status × Memory}
              (walked
                (search_hash_node hash identity fuel n stub blob)
                (λ found. if found == null then some panic else some (done (ok, n))))
              (λ r.
                (r.0 ≡ ok)
                × Inserted m (bucket stub (hash blob)) e xs (xs ++ e ∷ []) r.1
                × (search_hash_node hash identity fuel r.1 stub blob ≡ some e))
      found_again n (after, same) =
          let size = length-append xs (e ∷ []) in
          let at_end =
            search_hash_node-first_match hash identity fuel n stub blob (xs ++ e ∷ []) after
              (omega arith) in
          let it =
            first_match_append (λ node. identity node blob) xs e
              (let out = l.nonnull in ground arith) none_yet own in
          let some_e : (e == null) ≡ false = let ne = new.nonnull in ground arith in
          rw (at_end, it, some_e) (refl, (after, same), at_end ∙ ap some it)

  -- A key that a node of its bucket has is refused, and nothing is written.
  pub add_hash_node-exists :
      (fuel : ℕ) (m : Memory) (stub : HashStub) (blob : Key) (e : Ptr) (xs : List Ptr)
      → IsList m (bucket stub (hash blob)) xs
      → length xs < fuel
      → identity e blob ≡ true
      → first_match (λ node. identity node blob) xs ≢ null
      → add_hash_node hash identity fuel m stub blob e ≡ some (done (err_exist, m))
  unfolding add_hash_node walked
  add_hash_node-exists fuel m stub blob e xs l f own there =
      let first = search_hash_node-first_match hash identity fuel m stub blob xs l f in
      let some_match : (first_match (λ node. identity node blob) xs == null) ≡ false =
        ground arith in
      rw (own, first, add_hash_node, some_match)

  -- What `delete_hash_node` leaves: the bucket without the node, and a key that is not found.
  abbrev pub Deleted :
      ℕ → Memory → HashStub → Key → Ptr → List Ptr → List Ptr → Status × Memory → Type 0
  Deleted fuel m stub blob e xs ys (r, n) =
      (r ≡ ok)
      × Removed m (bucket stub (hash blob)) e xs ys n
      × (search_hash_node hash identity fuel n stub blob ≡ some null)

  detached_check :
      (m n : Memory) (h e : Ptr) (ys zs : List Ptr)
      → IsList m h (ys ++ e ∷ zs)
      → Removed m h e (ys ++ e ∷ zs) (ys ++ zs) n
      → list_node_detached n h e ≡ true
  unfolding list_node_detached
  detached_check m n h e ys zs l (after, apart, same) =
      let back = apart.no_prev in
      let front = apart.no_next in
      let first = after.first in
      let not_first : (first_or (ys ++ zs) null == e) ≡ false = away (ys ++ zs) out in
      rw (back, front, first, not_first)
    where
      out : has e (ys ++ zs) ≡ false
      out =
          let at = has-append e ys zs in
          let before = before_out m h e ys zs l in
          let behind = (dist m h e ys zs l).1.0 in ground arith

      some_e : has null (ys ++ e ∷ zs) ≡ false
      some_e = let o = l.nonnull in ground arith

      away : (ks : List Ptr) → has e ks ≡ false → (first_or ks null == e) ≡ false
      away [] o = let at = has-append null ys (e ∷ zs) in let ne = some_e in ground arith
      away (k ∷ ks) o = ground arith

  -- With more fuel than the bucket has nodes, `delete_hash_node` takes out the only node of the
  -- bucket that has the key: the others keep their order, the node is detached, nothing but the
  -- bucket is written, the key is not found afterwards, and no ASSERT fails.
  pub delete_hash_node-Deleted :
      (fuel : ℕ) (m : Memory) (stub : HashStub) (blob : Key) (e : Ptr) (ys zs : List Ptr)
      → IsList m (bucket stub (hash blob)) (ys ++ e ∷ zs)
      → length (ys ++ e ∷ zs) < fuel
      → identity e blob ≡ true
      → ((a : Ptr) → has a (ys ++ zs) ≡ true → identity a blob ≡ false)
      → Yields
          (delete_hash_node hash identity fuel m stub blob)
          (Deleted fuel m stub blob e (ys ++ e ∷ zs) (ys ++ zs))
  unfolding delete_hash_node walked changed
  delete_hash_node-Deleted fuel m stub blob e ys zs l f own others =
      let first = search_hash_node-first_match hash identity fuel m stub blob (ys ++ e ∷ zs) l f in
      let it = first_match_only (λ node. identity node blob) ys e zs own others in
      let (n, run, removed) = list_delete-Removed m (bucket stub (hash blob)) e fuel ys zs l f in
      let check = detached_check m n (bucket stub (hash blob)) e ys zs l removed in
      let size = length-append ys (e ∷ zs) in
      let size' = length-append ys zs in
      let gone =
        search_hash_node-first_match hash identity fuel n stub blob (ys ++ zs) removed.0
          (omega arith)
        ∙ ap some (first_match_none (λ node. identity node blob) (ys ++ zs) others) in
      let some_e : (e == null) ≡ false = some_node in
      rw (first, delete_hash_node, it, some_e, run, check, gone) (refl, removed, gone)
    where
      some_node : (e == null) ≡ false
      some_node = let at = has-append null ys (e ∷ zs) in let o = l.nonnull in ground arith

  -- A key that no node of its bucket has is reported as not present, and nothing is written.
  pub delete_hash_node-absent :
      (fuel : ℕ) (m : Memory) (stub : HashStub) (blob : Key) (xs : List Ptr)
      → IsList m (bucket stub (hash blob)) xs
      → length xs < fuel
      → ((a : Ptr) → has a xs ≡ true → identity a blob ≡ false)
      → delete_hash_node hash identity fuel m stub blob ≡ some (done (err_not_present, m))
  unfolding delete_hash_node walked
  delete_hash_node-absent fuel m stub blob xs l f none_there =
      let first = search_hash_node-first_match hash identity fuel m stub blob xs l f in
      let it = first_match_none (λ node. identity node blob) xs none_there in
      rw (first, delete_hash_node, it)
