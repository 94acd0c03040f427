-- ===== src/MemBlocks/Bytes.antt =====
-- The bytes that a list of blocks holds, and when it is in order.
use zelda_os.Prelude.{
  ℕ, ◌+◌, ◌-◌, ◌≤◌, ◌≡◌, refl, sym, ap, ◌∙◌, List, [], ◌∷◌, ◌++◌, append-nil, append_assoc, arith,
  length, take, drop, length-append, length-take, length-drop, take-length, take-append, drop-drop,
}
use zelda_os.MemBlocks.{Block, block_avail_size, put_bytes}
use zelda_os.CStr.Copy.{memcpy-take}

abbrev pub used : Block → List ℕ
used b = take b.nr_used b.content

-- the bytes of a file
abbrev pub bytes : List Block → List ℕ
bytes [] = []
bytes (b ∷ bs) = used b ++ bytes bs

-- the memory of a block is whole, and no more of it is used than there is
abbrev pub IsSound : Block → Type 0
IsSound b = (length b.content ≡ block_avail_size) × (b.nr_used ≤ block_avail_size)

abbrev pub AreSound : List Block → Type 0
AreSound [] = Unit
AreSound (b ∷ bs) = IsSound b × AreSound bs

-- every block but the last one is full
abbrev pub IsPacked : List Block → Type 0
IsPacked [] = Unit
IsPacked (b ∷ []) = IsSound b
IsPacked (b ∷ c ∷ bs) = IsSound b × (b.nr_used ≡ block_avail_size) × IsPacked (c ∷ bs)

-- the blocks that the allocator will return are whole
abbrev pub AreWhole : List (List ℕ) → Type 0
AreWhole [] = Unit
AreWhole (c ∷ cs) = (length c ≡ block_avail_size) × AreWhole cs

pub length-used : (b : Block) → IsSound b → length (used b) ≡ b.nr_used
length-used b s = length-take b.nr_used b.content ∙ omega (arith, s.0, s.1)

pub bytes-append : (xs ys : List Block) → bytes (xs ++ ys) ≡ bytes xs ++ bytes ys
bytes-append [] ys = refl
bytes-append (b ∷ bs) ys =
    rw (bytes-append bs ys) (sym (append_assoc (used b) (bytes bs) (bytes ys)))

pub AreSound-append : (xs ys : List Block) → AreSound xs → AreSound ys → AreSound (xs ++ ys)
AreSound-append [] ys sx sy = sy
AreSound-append (b ∷ bs) ys sx sy = (sx.0, AreSound-append bs ys sx.1 sy)

pub AreSound-IsPacked : (bs : List Block) → IsPacked bs → AreSound bs
AreSound-IsPacked [] p = tt
AreSound-IsPacked (b ∷ []) p = (p, tt)
AreSound-IsPacked (b ∷ c ∷ bs) p = (p.0, AreSound-IsPacked (c ∷ bs) p.2)

module _ (content buffer : List ℕ) (i n : ℕ) (fits : i + n ≤ length content)
    (have : n ≤ length buffer) where
  -- A write into a block replaces the bytes from `i` on.
  pub put_bytes-eq :
      put_bytes content i buffer n ≡ take i content ++ (take n buffer ++ drop (i + n) content)
  unfolding put_bytes
  put_bytes-eq =
      let room = length-drop i content in
      rw (
        memcpy-take (drop i content) buffer n (omega (arith, room, fits)) have,
        drop-drop n i content,
      )

  pub length-put_bytes : length (put_bytes content i buffer n) ≡ length content
  length-put_bytes =
      ap length put_bytes-eq
      ∙ length-append (take i content) (take n buffer ++ drop (i + n) content)
      ∙ omega (
        arith,
        length-append (take n buffer) (drop (i + n) content),
        length-take i content,
        length-take n buffer,
        length-drop (i + n) content,
        fits,
        have,
      )

  -- what the block holds up to the end of the write
  pub take-put_bytes : take (i + n) (put_bytes content i buffer n) ≡ take i content ++ take n buffer
  take-put_bytes =
      let li : length (take i content) ≡ i = length-take i content ∙ omega (arith, fits) in
      let ln : length (take n buffer) ≡ n = length-take n buffer ∙ omega (arith, have) in
      let left : i + n - length (take i content) ≡ n = omega (arith, li) in
      let none_left : n - length (take n buffer) ≡ 0 = omega (arith, ln) in
      ap (take (i + n)) put_bytes-eq
      ∙ take-append (i + n) (take i content) (take n buffer ++ drop (i + n) content)
      ∙ rw (
        left,
        take-append n (take n buffer) (drop (i + n) content),
        none_left,
        take-length (i + n) (take i content) (omega (arith, li)),
        take-length n (take n buffer) (omega (arith, ln)),
        append-nil (take n buffer),
      )
