-- ===== src/ByteRing.antt =====
-- lib/include/ring.h: the byte stream queue over a static array. `ring_size` is the capacity plus
-- one: the slot before `front` is never filled, so that a full ring differs from an empty one.
-- The ints are `int32_t`; ByteRing.Valid shows that no sum leaves their range.
pub mod Valid
pub mod Contents
pub mod Stream
mod Tests
use zelda_os.Prelude.{
  ℕ, zero, suc, ◌+◌, ◌-◌, ◌%◌, Bool, List, [], ◌∷◌, ◌==◌, if◌then◌else◌, get_or, set,
}

pub record Ring : Type 0 where
  pub ring_size : ℕ
  pub front : ℕ
  pub rear : ℕ
  pub buffer : List ℕ

unfoldable pub ring_reset : Ring → Ring
ring_reset r = record r { front = 0; rear = 0 }

unfoldable pub ring_empty : Ring → Bool
ring_empty r = r.front == r.rear

unfoldable pub ring_full : Ring → Bool
ring_full r = (r.rear + 1) % r.ring_size == r.front

unfoldable pub ring_length : Ring → ℕ
ring_length r = (r.rear + r.ring_size - r.front) % r.ring_size

-- one round of the loop of `write_ring`
abbrev pub store : Ring → ℕ → Ring
store r byte = record r { buffer = set r.buffer r.rear byte; rear = (r.rear + 1) % r.ring_size }

-- The list is the `size` bytes that the caller passes; the result is the count written.
unfoldable pub write_ring : Ring → List ℕ → ℕ × Ring
unfolding ring_full
write_ring r [] = (0, r)
write_ring r (byte ∷ rest) =
    let more = write_ring (store r byte) rest in
    if ring_full r then (0, r) else (more.0 + 1, more.1)

-- one round of the loop of `read_ring`
abbrev pub advance : Ring → Ring
advance r = record r { front = (r.front + 1) % r.ring_size }

-- `size` bytes at most; the result is the bytes put into the caller's buffer.
unfoldable pub read_ring : Ring → ℕ → List ℕ × Ring
unfolding ring_empty
read_ring r zero = ([], r)
read_ring r (suc left) =
    let more = read_ring (advance r) left in
    if ring_empty r then ([], r) else (get_or r.buffer r.front 0 ∷ more.0, more.1)

unfoldable pub ring_enqueue : Ring → ℕ → ℕ × Ring
unfolding write_ring
ring_enqueue r value = write_ring r (value ∷ [])

unfoldable pub ring_dequeue : Ring → List ℕ × Ring
unfolding read_ring
ring_dequeue r = read_ring r 1
