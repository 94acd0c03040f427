-- ===== src/Paging/Bits.antt =====
-- The bits of a byte after `|=` and `&=` with a mask of one bit.
use zelda_os.Prelude.{ℕ, zero, suc, ◌+◌, ◌*◌, ◌/◌, ◌%◌, ◌≡◌, refl, ap, ◌≢◌, arith}
use zelda_os.Paging.{bit, set_bit, clear_bit}

pub bit-set_bit_same : (x i : ℕ) → bit (set_bit x i) i ≡ 1
unfolding bit set_bit
bit-set_bit_same x zero = omega arith
bit-set_bit_same x (suc i) =
    let half : (set_bit (x / 2) i * 2 + x % 2) / 2 ≡ set_bit (x / 2) i = omega arith in
    rw half (bit-set_bit_same (x / 2) i)

pub bit-set_bit_other : (x i j : ℕ) → i ≢ j → bit (set_bit x i) j ≡ bit x j
unfolding bit set_bit
bit-set_bit_other x zero zero h = absurd (h refl)
bit-set_bit_other x zero (suc j) h =
    let half : (x / 2 * 2 + 1) / 2 ≡ x / 2 = omega arith in rw half refl
bit-set_bit_other x (suc i) zero h = omega arith
bit-set_bit_other x (suc i) (suc j) h =
    let half : (set_bit (x / 2) i * 2 + x % 2) / 2 ≡ set_bit (x / 2) i = omega arith in
    rw half (bit-set_bit_other (x / 2) i j (λ e. h (ap suc e)))

pub bit-clear_bit_same : (x i : ℕ) → bit (clear_bit x i) i ≡ 0
unfolding bit clear_bit
bit-clear_bit_same x zero = omega arith
bit-clear_bit_same x (suc i) =
    let half : (clear_bit (x / 2) i * 2 + x % 2) / 2 ≡ clear_bit (x / 2) i = omega arith in
    rw half (bit-clear_bit_same (x / 2) i)

pub bit-clear_bit_other : (x i j : ℕ) → i ≢ j → bit (clear_bit x i) j ≡ bit x j
unfolding bit clear_bit
bit-clear_bit_other x zero zero h = absurd (h refl)
bit-clear_bit_other x zero (suc j) h =
    let half : x / 2 * 2 / 2 ≡ x / 2 = omega arith in rw half refl
bit-clear_bit_other x (suc i) zero h = omega arith
bit-clear_bit_other x (suc i) (suc j) h =
    let half : (clear_bit (x / 2) i * 2 + x % 2) / 2 ≡ clear_bit (x / 2) i = omega arith in
    rw half (bit-clear_bit_other (x / 2) i j (λ e. h (ap suc e)))
