-- ===== src/ByteRing/Valid.antt =====
-- The representation invariant of a ring.
use zelda_os.Prelude.{ℕ, ◌+◌, ◌^◌, ◌≤◌, ◌<◌, ◌≡◌, refl, true, arith, length, length-set}
use zelda_os.ByteRing.{Ring, ring_reset, ring_empty, ring_length, store, advance}

pub record IsValid (r : Ring) : Type 0 where
  pub room : 1 < r.ring_size
  pub small : r.ring_size < 2 ^ 30
  pub storage : r.ring_size ≤ length r.buffer
  pub front_in : r.front < r.ring_size
  pub rear_in : r.rear < r.ring_size

-- In a valid ring no sum of ring.h leaves the range of an `int32_t`, no subtraction goes below
-- zero, and both indices lie in the buffer.
pub IsValid-bounds :
    (r : Ring)
    → IsValid r
    → (r.rear + r.ring_size < 2 ^ 31)
      × (r.front ≤ r.rear + r.ring_size)
      × (r.rear < length r.buffer)
      × (r.front < length r.buffer)
      × (ring_length r < r.ring_size)
unfolding ring_length
IsValid-bounds r v =
    let a = v.room in
    let b = v.small in
    let c = v.storage in
    let d = v.front_in in
    let e = v.rear_in in (omega arith, omega arith, omega arith, omega arith, omega arith)

pub ring_reset-IsValid :
    (r : Ring) → IsValid r → IsValid (ring_reset r) × (ring_empty (ring_reset r) ≡ true)
unfolding ring_reset ring_empty
ring_reset-IsValid r v = (ground arith, refl)

pub store-IsValid : (r : Ring) (byte : ℕ) → IsValid r → IsValid (store r byte)
store-IsValid r byte v = ground (arith, length-set r.buffer r.rear byte)

pub advance-IsValid : (r : Ring) → IsValid r → IsValid (advance r)
advance-IsValid r v = ground arith
