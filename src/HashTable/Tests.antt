-- ===== src/HashTable/Tests.antt =====
-- The table theorems at a table of two buckets whose nodes are their own keys.
use zelda_os.Prelude.{ℕ, ◌≡◌, refl, Bool, some, [], ◌∷◌, arith, ◌==◌, if◌then◌else◌, Yields}
use zelda_os.Status.{ok}
use zelda_os.HashTable.{HashStub, bucket, search_hash_node, add_hash_node, delete_hash_node}
use zelda_os.HashTable.Search.{search_hash_node-first_match}
use zelda_os.HashTable.Change.{add_hash_node-IsList, Deleted, delete_hash_node-Deleted}
use zelda_os.Links.{Ptr, Memory}
use zelda_os.Links.Shape.{IsList, Inserted}

-- heads at 8 and 16; the bucket of the odd keys holds 41 and 43
abbrev memory : Memory
memory a =
    if a == 16
    then record { prev = 43; next = 41 }
    else if a == 41
    then record { prev = 0; next = 43 }
    else if a == 43
    then record { prev = 41; next = 0 }
    else record { prev = 0; next = 0 }

abbrev stub : HashStub
stub = record { stub_mask = 1; heads = 8 }

abbrev hash : ℕ → ℕ
hash n = n

abbrev identity : Ptr → ℕ → Bool
identity p k = p == k

odd : IsList memory (bucket stub (hash 45)) (41 ∷ 43 ∷ [])
unfolding bucket
odd = record {
  apart = (refl, (refl, (refl, tt)));
  nonnull = refl;
  first = refl;
  last = refl;
  links = (refl, refl, (refl, refl, tt));
}

search_hash_node-first_match_example : search_hash_node hash identity 3 memory stub 43 ≡ some 43
unfolding bucket
search_hash_node-first_match_example =
    search_hash_node-first_match hash identity 3 memory stub 43 (41 ∷ 43 ∷ []) odd (omega arith)

add_hash_node-IsList_example : Yields (add_hash_node hash identity 4 memory stub 45 45) (λ r.
    (r.0 ≡ ok)
    × Inserted memory (bucket stub 45) 45 (41 ∷ 43 ∷ []) (41 ∷ 43 ∷ 45 ∷ []) r.1
    × (search_hash_node hash identity 4 r.1 stub 45 ≡ some 45))
unfolding bucket
add_hash_node-IsList_example =
    add_hash_node-IsList hash identity 4 memory stub 45 45 (41 ∷ 43 ∷ []) odd (omega arith)
      (record {
        detached = record { no_prev = refl; no_next = refl };
        outside = refl;
        nonnull = omega arith;
      })
      refl refl

delete_hash_node-Deleted_example :
    Yields
      (delete_hash_node hash identity 3 memory stub 41)
      (Deleted hash identity 3 memory stub 41 41 (41 ∷ 43 ∷ []) (43 ∷ []))
unfolding bucket
delete_hash_node-Deleted_example =
    delete_hash_node-Deleted hash identity 3 memory stub 41 41 [] (43 ∷ []) odd (omega arith) refl
      (λ a i. ground arith)
