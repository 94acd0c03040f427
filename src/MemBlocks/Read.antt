-- ===== src/MemBlocks/Read.antt =====
-- Reading is a slice of the bytes of the file.
use zelda_os.Prelude.{
  ℕ, zero, suc, ◌+◌, ◌-◌, ◌≤◌, min, ◌≡◌, refl, sym, ap, ◌∙◌, inl, inr, true, false, List, [], ◌∷◌,
  ◌++◌, arith, ltb, leb, ◌==◌, Bool-cases, length, take, drop, length-take, length-drop, drop_nil,
  take_nil, take-append, drop-append, drop_all, take-take, take-drop, done,
}
use zelda_os.MemBlocks.{Block, MemFile, read_from, mem_block_raw_read}
use zelda_os.MemBlocks.Bytes.{used, bytes, AreSound, length-used}

-- what one block gives to a read
chunk_lem :
    (content : List ℕ) (k off left : ℕ)
    → take (min (k - min k off) left) (drop (min k off) content)
      ≡ take left (drop off (take k content))
chunk_lem content k off left = elim (Bool-cases (leb k off)) [
  | inl past ↦
      let none_left : min (k - min k off) left ≡ 0 = ground arith in
      let over : length (take k content) ≤ off =
        omega (arith, length-take k content, leb→le past) in
      rw (none_left, drop_all off (take k content) over) (sym (take_nil left))
  | inr inside ↦
      let all : min k off ≡ off = ground arith in
      let whole : off + (k - off) ≡ k = ground arith in
      let cut : drop off (take k content) ≡ take (k - off) (drop off content) =
        sym (take-drop (k - off) off content ∙ ap (λ (m : ℕ). drop off (take m content)) whole) in
      let order : min left (k - off) ≡ min (k - off) left = omega arith in
      rw (all, cut, take-take left (k - off) (drop off content), order)
]
  where
    leb→le : leb k off ≡ true → k ≤ off
    leb→le h = ground arith

pub read_from-bytes :
    (bs : List Block) (off left : ℕ)
    → AreSound bs
    → read_from bs off left ≡ done (take left (drop off (bytes bs)))
unfolding read_from
read_from-bytes [] off left s = rw (drop_nil {A = ℕ} off, take_nil {A = ℕ} left)
read_from-bytes (b ∷ bs) off zero s = refl
read_from-bytes (b ∷ bs) off (suc l) s =
    let k = length-used b s.0 in
    let rest =
      read_from-bytes bs (off - min b.nr_used off)
        (suc l - min (b.nr_used - min b.nr_used off) (suc l)) s.1 in
    let off_same : off - min b.nr_used off ≡ off - length (used b) = omega (arith, k) in
    let left_same : suc l - min (b.nr_used - min b.nr_used off) (suc l)
        ≡ suc l - length (drop off (used b)) =
      omega (arith, k, length-drop off (used b)) in
    let split : take (suc l) (drop off (bytes (b ∷ bs)))
        ≡ take (suc l) (drop off (used b))
          ++ take (suc l - length (drop off (used b))) (drop (off - length (used b)) (bytes bs)) =
      ap (take (suc l)) (drop-append off (used b) (bytes bs))
      ∙ take-append (suc l) (drop off (used b)) (drop (off - length (used b)) (bytes bs)) in
    let total : take (min (b.nr_used - min b.nr_used off) (suc l))
            (drop (min b.nr_used off) b.content)
          ++ take (suc l - min (b.nr_used - min b.nr_used off) (suc l))
              (drop (off - min b.nr_used off) (bytes bs))
        ≡ take (suc l) (drop off (bytes (b ∷ bs))) =
      rw (chunk_lem b.content b.nr_used off (suc l), left_same, off_same) (sym split) in
    let asked : (suc l == 0) ≡ false = ground arith in
    elim (Bool-cases (b.nr_used - min b.nr_used off == 0)) [
      | inl nothing ↦
          let none_left : min (b.nr_used - min b.nr_used off) (suc l) ≡ 0 = ground arith in
          let front : take (min (b.nr_used - min b.nr_used off) (suc l))
                (drop (min b.nr_used off) b.content)
              ≡ [] =
            ap (λ (k : ℕ). take k (drop (min b.nr_used off) b.content)) none_left in
          simp (asked, nothing, rest)
            (ap done (
              ap
                (λ (r : List ℕ).
                  r
                  ++ take (suc l - min (b.nr_used - min b.nr_used off) (suc l))
                      (drop (off - min b.nr_used off) (bytes bs)))
                (sym front)
              ∙ total))
      | inr something ↦
          let some_left : ltb 0 (min (b.nr_used - min b.nr_used off) (suc l)) ≡ true =
            ground arith in
          simp (asked, something, some_left, rest) (ap done total)
    ]

-- `mem_block_raw_read` fails no ASSERT and returns the bytes of the file from the offset on, as many
-- as are asked for or all that there are, for blocks that use no more memory than they have.
pub mem_block_raw_read-bytes :
    (f : MemFile) (offset size : ℕ)
    → AreSound f.blocks
    → mem_block_raw_read f offset size ≡ done (take size (drop offset (bytes f.blocks)))
unfolding mem_block_raw_read
mem_block_raw_read-bytes f offset size sound = read_from-bytes f.blocks offset size sound
