-- ===== src/HashTable.antt =====
-- lib/hash_table.c: tables whose buckets are the lists of lib/list.c. The callbacks of a table are
-- its `hash` of a key and its `identity`, which says whether a node has a key; walks run on fuel.
pub mod Search
pub mod Change
mod Tests
use zelda_os.Prelude.{
  ℕ, zero, suc, ◌+◌, ◌*◌, Bool, not, Option, none, some, ◌==◌, if◌then◌else◌, Outcome, done, panic,
}
use zelda_os.Status.{Status, ok, err_not_present, err_exist}
use zelda_os.Links.{Ptr, null, Memory, list_node_detached, list_append, list_delete}
use Prim.Native.Nat.{bit_and}

pub record HashStub : Type 0 where
  pub stub_mask : ℕ
  pub heads : Ptr

-- `&stub->heads[hash_value & stub->stub_mask]`; a head takes eight bytes.
unfoldable pub bucket : HashStub → ℕ → Ptr
bucket stub hash_value = stub.heads + 8 * bit_and hash_value stub.stub_mask

-- LIST_FOREACH with a body that stops at the first node that passes the test
pub search_from : ℕ → Memory → Ptr → (Ptr → Bool) → Option Ptr
search_from zero m cursor test = none
search_from (suc fuel) m cursor test =
    let rest = search_from fuel m (m cursor).next test in
    if cursor == null then some null else if test cursor then some cursor else rest

-- what follows a walk, and what follows an ASSERT or a call that has one
walked {ℓ} : {A : Type ℓ} → Option Ptr → (Ptr → Option (Outcome A)) → Option (Outcome A)
walked none k = none
walked (some p) k = k p

changed {ℓ} :
    {A : Type ℓ} → Option (Outcome Memory) → (Memory → Option (Outcome A)) → Option (Outcome A)
changed none k = none
changed (some panic) k = some panic
changed (some (done m)) k = k m

module _ {Key : Type 0} (hash : Key → ℕ) (identity : Ptr → Key → Bool) where
  -- The result is null if no node has the key.
  unfoldable pub search_hash_node : ℕ → Memory → HashStub → Key → Option Ptr
  unfolding search_from bucket
  search_hash_node fuel m stub blob =
      search_from fuel m (m (bucket stub (hash blob))).next (λ node. identity node blob)

  pub add_hash_node :
      ℕ → Memory → HashStub → Key → (node : Ptr) → Option (Outcome (Status × Memory))
  unfolding search_hash_node walked changed
  add_hash_node fuel m stub blob node =
      if not (identity node blob)
      then some panic
      else walked (search_hash_node fuel m stub blob) (λ target.
        if not (target == null)
        then some (done (err_exist, m))
        else changed (some (list_append m (bucket stub (hash blob)) node)) (λ n.
          walked (search_hash_node fuel n stub blob)
            (λ found. if found == null then some panic else some (done (ok, n)))))

  pub delete_hash_node : ℕ → Memory → HashStub → Key → Option (Outcome (Status × Memory))
  unfolding search_hash_node walked changed list_node_detached
  delete_hash_node fuel m stub blob = walked (search_hash_node fuel m stub blob) (λ target.
      if target == null
      then some (done (err_not_present, m))
      else changed (list_delete fuel m (bucket stub (hash blob)) target) (λ n.
        if not (list_node_detached n (bucket stub (hash blob)) target)
        then some panic
        else walked (search_hash_node fuel n stub blob)
            (λ left. if left == null then some (done (ok, n)) else some panic)))
