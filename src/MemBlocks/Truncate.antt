-- ===== src/MemBlocks/Truncate.antt =====
-- `mem_block_raw_truncate` shortens a file and gives the blocks behind its end back.
use zelda_os.Prelude.{
  ℕ, ◌+◌, ◌-◌, ◌≤◌, ◌≡◌, refl, sym, ap, ◌∙◌, inl, inr, List, [], ◌∷◌, ◌++◌, append-nil, arith, ◌==◌,
  Bool-cases, length, take, length-append, take-take, take-append_past,
}
use zelda_os.Status.{Status, ok}
use zelda_os.MemBlocks.{Block, MemFile, block_avail_size}
use zelda_os.MemBlocks.Random.{seek, cut_blocks, put_all, mem_block_raw_truncate}
use zelda_os.MemBlocks.Bytes.{used, bytes, IsPacked, bytes-append}
use zelda_os.MemBlocks.Seek.{IsPlace, last_or_full, seek-Found, by_size}
use zelda_os.MemBlocks.Splice.{take_front}
use zelda_os.MemBlocks.Overwrite.{IsPacked-behind, no_more}

-- the blocks from the current one on after the cut
abbrev pub Cut : List Block → ℕ → List Block × List Block → Type 0
Cut current i (kept, cut) =
    IsPacked kept
    × (bytes kept ≡ take i (bytes current))
    × (length kept + length cut ≡ length current)

cut_blocks-Cut :
    (current : List Block) (i : ℕ)
    → IsPacked current
    → IsPlace current i
    → Cut current i (cut_blocks current i)
unfolding cut_blocks
cut_blocks-Cut [] i packed place = (tt, rw place refl, refl)
cut_blocks-Cut (b ∷ bs) i packed place =
    let (sound, ends, packed') = last_or_full b bs packed in
    elim (Bool-cases (i == 0)) [
      | inl nothing ↦
          let zero_i : i ≡ 0 = ground arith in rw nothing (tt, rw zero_i refl, omega arith)
      | inr something ↦
          let front : take i b.content ≡ take i (used b) =
            ap (λ (m : ℕ). take m b.content) (omega (arith, place))
            ∙ sym (take-take i b.nr_used b.content) in
          rw something (
            (sound.0, omega (arith, place, sound.1)),
            append-nil (take i b.content) ∙ front ∙ sym (take_front b bs i sound ends place),
            omega arith,
          )
    ]

length-put_all : (cut freed : List Block) → length (put_all cut freed) ≡ length cut + length freed
length-put_all [] freed = omega arith
length-put_all (b ∷ bs) freed = omega (arith, length-put_all bs (b ∷ freed))

-- the file after the cut: no block is lost
abbrev pub Truncated : MemFile → ℕ → Status × MemFile → Type 0
Truncated f offset (s, g) =
    (s ≡ ok)
    × IsPacked g.blocks
    × (bytes g.blocks ≡ take offset (bytes f.blocks))
    × (length g.blocks + length g.freed ≡ length f.blocks + length f.freed)
    × (g.supply ≡ f.supply)

-- For a file whose blocks but the last one are full and an offset that is not past its end,
-- `mem_block_raw_truncate` returns OK and leaves the bytes before the offset, in blocks of which all
-- but the last one are full. Every block of the file is kept or given back.
pub mem_block_raw_truncate-Truncated :
    (f : MemFile) (offset : ℕ)
    → IsPacked f.blocks
    → offset ≤ length (bytes f.blocks)
    → Truncated f offset (mem_block_raw_truncate f offset)
unfolding mem_block_raw_truncate
mem_block_raw_truncate-Truncated f offset packed inside =
    let (left, split, full, packed', place, at) =
      seek-Found (λ _. block_avail_size) by_size f.blocks offset packed inside in
    let s = seek (λ _. block_avail_size) f.blocks offset in
    let c = cut_blocks s.1 s.2 in
    let (p, same, total) = cut_blocks-Cut s.1 s.2 packed' place in
    let rest : offset - length (bytes s.0) ≡ s.2 = omega (arith, at) in
    let text : bytes (s.0 ++ c.0) ≡ take offset (bytes f.blocks) =
      bytes-append s.0 c.0
      ∙ ap (λ (t : List ℕ). bytes s.0 ++ t) (same ∙ ap (λ (k : ℕ). take k (bytes s.1)) (sym rest))
      ∙ sym (
          take-append_past offset (length (bytes s.0)) (bytes s.0) (bytes s.1) refl
            (omega (arith, at)))
      ∙ ap (take offset) (sym (ap bytes split ∙ bytes-append s.0 s.1)) in
    rw (left, no_more f.supply)
      (
        refl,
        IsPacked-behind s.0 c.0 full p,
        text,
        omega (
          arith,
          total,
          length-append s.0 c.0,
          length-put_all c.1 f.freed,
          ap length split,
          length-append s.0 s.1,
        ),
        refl,
      )
