-- ===== src/Paging/Bitmap.antt =====
-- Marking a page changes what the bitmap says of that page and of no other.
use zelda_os.Prelude.{ℕ, ◌/◌, ◌%◌, ◌≡◌, refl, ◌≢◌, inl, inr, true, false, arith, ◌==◌, Bool-cases}
use zelda_os.Paging.{is_page_free, mark_page_as_occupied, mark_page_as_free}
use zelda_os.Paging.Bits.{
  bit-set_bit_same, bit-set_bit_other, bit-clear_bit_same, bit-clear_bit_other,
}

module _ (bitmap : ℕ → ℕ) (a b : ℕ) where
  pub mark_page_as_occupied-same :
      a / 4096 ≡ b / 4096 → is_page_free (mark_page_as_occupied bitmap a) b ≡ false
  unfolding is_page_free mark_page_as_occupied
  mark_page_as_occupied-same e =
      let same : (b / 4096 / 8 == b / 4096 / 8) ≡ true = ground arith in
      let set : (1 == 0) ≡ false = ground arith in
      rw (e, same, bit-set_bit_same (bitmap (b / 4096 / 8)) (b / 4096 % 8)) refl

  pub mark_page_as_free-same :
      a / 4096 ≡ b / 4096 → is_page_free (mark_page_as_free bitmap a) b ≡ true
  unfolding is_page_free mark_page_as_free
  mark_page_as_free-same e =
      let same : (b / 4096 / 8 == b / 4096 / 8) ≡ true = ground arith in
      rw (e, same, bit-clear_bit_same (bitmap (b / 4096 / 8)) (b / 4096 % 8)) refl

  module _ (other : a / 4096 ≢ b / 4096) where
    bits_apart : (b / 4096 / 8 == a / 4096 / 8) ≡ true → a / 4096 % 8 ≢ b / 4096 % 8
    bits_apart e bits =
        let bytes : b / 4096 / 8 ≡ a / 4096 / 8 = ground arith in other (omega (arith, bytes, bits))

    pub mark_page_as_occupied-other :
        is_page_free (mark_page_as_occupied bitmap a) b ≡ is_page_free bitmap b
    unfolding is_page_free mark_page_as_occupied
    mark_page_as_occupied-other = elim (Bool-cases (b / 4096 / 8 == a / 4096 / 8)) [
      | inl e ↦
          rw
            (
              e,
              bit-set_bit_other (bitmap (b / 4096 / 8)) (a / 4096 % 8) (b / 4096 % 8)
                  (bits_apart e),
            )
            refl
      | inr e ↦ rw e refl
    ]

    pub mark_page_as_free-other :
        is_page_free (mark_page_as_free bitmap a) b ≡ is_page_free bitmap b
    unfolding is_page_free mark_page_as_free
    mark_page_as_free-other = elim (Bool-cases (b / 4096 / 8 == a / 4096 / 8)) [
      | inl e ↦
          rw
            (
              e,
              bit-clear_bit_other (bitmap (b / 4096 / 8)) (a / 4096 % 8) (b / 4096 % 8)
                  (bits_apart e),
            )
            refl
      | inr e ↦ rw e refl
    ]

pub is_page_free-frame :
    (bitmap : ℕ → ℕ) (a b : ℕ) → a / 4096 ≡ b / 4096 → is_page_free bitmap a ≡ is_page_free bitmap b
unfolding is_page_free
is_page_free-frame bitmap a b e = rw e refl
