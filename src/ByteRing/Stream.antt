-- ===== src/ByteRing/Stream.antt =====
-- `write_ring` and `read_ring` move bytes in and out in order.
use zelda_os.Prelude.{
  ℕ, zero, suc, ◌-◌, ◌<◌, min, ◌≡◌, refl, sym, ap, ap₂, ◌∙◌, inl, inr, true, List, [], ◌∷◌, ◌++◌,
  append-nil, append_assoc, arith, Bool-cases, length, get_or, take, drop, length-append,
  take-add_one, take-length,
}
use zelda_os.ByteRing.{
  Ring, ring_empty, ring_full, ring_length, store, write_ring, advance, read_ring,
}
use zelda_os.ByteRing.Valid.{IsValid, IsValid-bounds, store-IsValid, advance-IsValid}
use zelda_os.ByteRing.Contents.{
  contents, length-contents, ring_tests, contents-store, contents-advance,
}

-- what a write of `bytes` leaves
pub record Wrote (r : Ring) (bytes : List ℕ) (count : ℕ) (r' : Ring) : Type 0 where
  pub valid : IsValid r'
  pub size : r'.ring_size ≡ r.ring_size
  pub amount : count ≡ min (length bytes) (r.ring_size - 1 - ring_length r)
  pub bytes_in : contents r' ≡ contents r ++ take count bytes

-- `write_ring` takes as many of the bytes as there is room for, puts exactly these behind the bytes
-- that are there, in order, returns their number, and keeps the ring valid.
pub write_ring-Wrote :
    (r : Ring) (bytes : List ℕ)
    → IsValid r
    → Wrote r bytes (write_ring r bytes).0 (write_ring r bytes).1
unfolding write_ring
write_ring-Wrote r [] v = record {
  valid = v;
  size = refl;
  amount = omega arith;
  bytes_in = sym (append-nil (contents r));
}
write_ring-Wrote r (byte ∷ rest) v = elim (Bool-cases (ring_full r)) [
  | inl full ↦
      let len = length-contents r v in
      let test = (ring_tests r v).1 in
      rw full (record {
        valid = v;
        size = refl;
        amount = ground arith;
        bytes_in = sym (append-nil (contents r));
      })
  | inr room ↦
      let len = length-contents r v in
      let test = (ring_tests r v).1 in
      let w = write_ring-Wrote (store r byte) rest (store-IsValid r byte v) in
      let more = contents-store r v byte room in
      let len' = length-contents (store r byte) (store-IsValid r byte v) in
      let grown = ap length more ∙ length-append (contents r) (byte ∷ []) in
      let bound = (IsValid-bounds r v).4 in
      rw room (record {
        valid = w.valid;
        size = w.size;
        amount = let a = w.amount in ground arith;
        bytes_in =
            w.bytes_in
            ∙ ap (λ c. c ++ take (write_ring (store r byte) rest).0 rest) more
            ∙ append_assoc (contents r) (byte ∷ []) (take (write_ring (store r byte) rest).0 rest)
            ∙ ap (λ t. contents r ++ t)
                (sym (take-add_one (write_ring (store r byte) rest).0 byte rest));
      })
]

-- what a read of `n` bytes leaves
pub record Read (r : Ring) (n : ℕ) (bytes : List ℕ) (r' : Ring) : Type 0 where
  pub valid : IsValid r'
  pub size : r'.ring_size ≡ r.ring_size
  pub bytes_out : bytes ≡ take n (contents r)
  pub left : contents r' ≡ drop n (contents r)

contents_none : (r : Ring) (v : IsValid r) → ring_empty r ≡ true → contents r ≡ []
contents_none r v e = let test = (ring_tests r v).0 in none_of (contents r) (ground arith)
  where
    none_of : (xs : List ℕ) → length xs ≡ 0 → xs ≡ []
    none_of [] h = refl
    none_of (x ∷ xs) h = absurd (omega arith)

-- `read_ring` takes the oldest bytes, as many as are asked for or all that there are, returns them
-- in order, leaves the rest, and keeps the ring valid.
pub read_ring-Read : (r : Ring) (n : ℕ) → IsValid r → Read r n (read_ring r n).0 (read_ring r n).1
unfolding read_ring
read_ring-Read r zero v = record { valid = v; size = refl; bytes_out = refl; left = refl }
read_ring-Read r (suc n) v = elim (Bool-cases (ring_empty r)) [
  | inl none_left ↦
      let c = contents_none r v none_left in
      rw none_left (record {
        valid = v;
        size = refl;
        bytes_out = ap (take (suc n)) (sym c);
        left = c ∙ ap (drop (suc n)) (sym c);
      })
  | inr some_left ↦
      let more = read_ring-Read (advance r) n (advance-IsValid r v) in
      let c = contents-advance r v some_left in
      rw some_left (record {
        valid = more.valid;
        size = more.size;
        bytes_out =
            ap (λ t. get_or r.buffer r.front 0 ∷ t) more.bytes_out ∙ ap (take (suc n)) (sym c);
        left = more.left ∙ ap (drop (suc n)) (sym c);
      })
]

-- Bytes that fit into an empty ring come back as they went in.
pub read_ring-write_ring :
    (r : Ring) (bytes : List ℕ)
    → IsValid r
    → ring_empty r ≡ true
    → length bytes < r.ring_size
    → ((write_ring r bytes).0 ≡ length bytes)
      × ((read_ring (write_ring r bytes).1 (length bytes)).0 ≡ bytes)
read_ring-write_ring r bytes v e fit =
    let w = write_ring-Wrote r bytes v in
    let all : (write_ring r bytes).0 ≡ length bytes =
      let len = length-contents r v in
      let none = ap length (contents_none r v e) in let a = w.amount in ground arith in
    (
      all,
      (read_ring-Read (write_ring r bytes).1 (length bytes) w.valid).bytes_out
          ∙ ap (take (length bytes))
              (w.bytes_in ∙ ap₂ ◌++◌ (contents_none r v e) (ap (λ n. take n bytes) all))
          ∙ ap (take (length bytes)) (take-length (length bytes) bytes (omega arith))
          ∙ take-length (length bytes) bytes (omega arith),
    )
