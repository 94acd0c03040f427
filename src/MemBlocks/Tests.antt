-- ===== src/MemBlocks/Tests.antt =====
-- The theorems on a file of one block, and runs.
use zelda_os.Prelude.{
  ℕ, ◌≤◌, ◌≡◌, refl, List, [], ◌∷◌, arith, length, take, drop, replicate, length-append,
  length-replicate, done, Yields,
}
use zelda_os.MemBlocks.{
  Block, MemFile, block_avail_size, mem_block_raw_write_sequential, mem_block_raw_read,
}
use zelda_os.MemBlocks.Random.{
  seek, extend, write_at, write_over, mem_block_raw_write_random, cut_blocks,
  mem_block_raw_truncate,
}
use zelda_os.MemBlocks.Bytes.{used, bytes, IsPacked, AreWhole, length-used, AreSound-IsPacked}
use zelda_os.MemBlocks.Read.{mem_block_raw_read-bytes}
use zelda_os.MemBlocks.Append.{Wrote, mem_block_raw_write_sequential-Wrote}
use zelda_os.MemBlocks.Overwrite.{
  Overwrote, mem_block_raw_write_random-Overwrote, mem_block_raw_read-written,
}
use zelda_os.MemBlocks.Truncate.{Truncated, mem_block_raw_truncate-Truncated}

-- a page less its header
blank : List ℕ
blank = replicate block_avail_size 0

blank-length : length blank ≡ block_avail_size
unfolding blank
blank-length = length-replicate {A = ℕ} block_avail_size 0

-- a file of four bytes, and memory for one more block
abbrev one_block : MemFile
one_block = record {
  blocks = record { nr_used = 4; content = blank } ∷ [];
  supply = blank ∷ [];
  freed = [];
}

one_block-IsPacked : IsPacked one_block.blocks
one_block-IsPacked = (blank-length, omega arith)

one_block-AreWhole : AreWhole one_block.supply
one_block-AreWhole = (blank-length, tt)

two_inside : 2 ≤ length (bytes one_block.blocks)
two_inside =
    let b : Block = record { nr_used = 4; content = blank } in
    omega (arith, length-append (used b) [], length-used b (blank-length, omega arith))

mem_block_raw_read-bytes_example :
    mem_block_raw_read one_block 1 2 ≡ done (take 2 (drop 1 (bytes one_block.blocks)))
mem_block_raw_read-bytes_example =
    mem_block_raw_read-bytes one_block 1 2 (AreSound-IsPacked one_block.blocks one_block-IsPacked)

mem_block_raw_write_sequential-Wrote_example :
    Yields
      (mem_block_raw_write_sequential one_block (7 ∷ 8 ∷ 9 ∷ []))
      (Wrote one_block (7 ∷ 8 ∷ 9 ∷ []))
mem_block_raw_write_sequential-Wrote_example =
    mem_block_raw_write_sequential-Wrote one_block (7 ∷ 8 ∷ 9 ∷ []) one_block-IsPacked
      one_block-AreWhole

mem_block_raw_write_random-Overwrote_example :
    Overwrote one_block 2 (7 ∷ 8 ∷ 9 ∷ []) (mem_block_raw_write_random one_block 2 (7 ∷ 8 ∷ 9 ∷ []))
mem_block_raw_write_random-Overwrote_example =
    mem_block_raw_write_random-Overwrote one_block 2 (7 ∷ 8 ∷ 9 ∷ []) one_block-IsPacked
      one_block-AreWhole two_inside

mem_block_raw_read-written_example :
    mem_block_raw_read
      (mem_block_raw_write_random one_block 2 (7 ∷ 8 ∷ 9 ∷ [])).1
      2
      (mem_block_raw_write_random one_block 2 (7 ∷ 8 ∷ 9 ∷ [])).0
    ≡ done (take (mem_block_raw_write_random one_block 2 (7 ∷ 8 ∷ 9 ∷ [])).0 (7 ∷ 8 ∷ 9 ∷ []))
mem_block_raw_read-written_example =
    mem_block_raw_read-written one_block 2 (7 ∷ 8 ∷ 9 ∷ []) one_block-IsPacked one_block-AreWhole
      two_inside

mem_block_raw_truncate-Truncated_example :
    Truncated one_block 2 (mem_block_raw_truncate one_block 2)
mem_block_raw_truncate-Truncated_example =
    mem_block_raw_truncate-Truncated one_block 2 one_block-IsPacked two_inside

sizes : List Block → List ℕ
sizes [] = []
sizes (b ∷ bs) = b.nr_used ∷ sizes bs

-- An extension past the last block leaves that block at four bytes, so that the file does not get
-- the size that was asked for.
extension_short : sizes (mem_block_raw_truncate one_block 5000).1.blocks ≡ 4 ∷ 916 ∷ []
unfolding mem_block_raw_truncate seek extend cut_blocks sizes
extension_short = refl

-- A write past the end of the file leaves bytes between that nobody has written.
gap_lem : sizes (mem_block_raw_write_random one_block 10 (7 ∷ [])).1.blocks ≡ 4 ∷ 7 ∷ []
unfolding mem_block_raw_write_random seek extend write_over write_at sizes
gap_lem = refl
