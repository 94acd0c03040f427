-- ===== src/MemBlocks.antt =====
-- filesystem/memfs_blocking.c: the contents of a file in memory, a list of blocks. The list is the
-- sequence of its blocks, in the order of LIST_FOREACH. `supply` is the contents of the blocks that
-- `malloc_align` will return, which `get_mem_block` does not clear; it returns NULL when there are
-- no more. `freed` are the blocks given back, the last one first. Sizes and offsets are below 2 ^ 31.
pub mod Bytes
pub mod Read
pub mod Tail
pub mod Append
pub mod Random
pub mod Seek
pub mod Place
pub mod Splice
pub mod Overwrite
pub mod Truncate
mod Tests
use zelda_os.Prelude.{
  ℕ, zero, suc, ◌+◌, ◌-◌, ◌%◌, ◌^◌, min, Option, none, some, List, [], ◌∷◌, ◌++◌, ltb, leb, ◌==◌,
  if◌then◌else◌, length, take, drop, Outcome, done, panic, ◌>>=◌, ◌>>◌, ensure,
}
use zelda_os.CStr.{memcpy}

-- struct mem_block_hdr
pub record Block : Type 0 where
  pub nr_used : ℕ
  pub content : List ℕ

-- BLOCK_AVAIL_SIZE: a page less the header of twelve bytes
abbrev pub block_avail_size : ℕ
block_avail_size = 4096 - 12

pub record MemFile : Type 0 where
  pub blocks : List Block
  pub supply : List (List ℕ)
  pub freed : List Block

abbrev pub fresh : List ℕ → Block
fresh c = record { nr_used = 0; content = c }

-- `get_mem_block` and `list_append`; `none` if there is no memory
unfoldable pub grow : MemFile → Option MemFile
grow f = elim f.supply [
  | [] ↦ none
  | c ∷ cs ↦ some (record f { blocks = f.blocks ++ fresh c ∷ []; supply = cs })
]

-- memcpy(content + iptr, buffer, n)
unfoldable pub put_bytes : List ℕ → (iptr : ℕ) → List ℕ → ℕ → List ℕ
unfolding memcpy
put_bytes content iptr buffer n = take iptr content ++ memcpy (drop iptr content) buffer n

-- `list_last_elem`, and a write to the block that it is in
unfoldable pub last_block : List Block → Option Block
last_block [] = none
last_block (b ∷ []) = some b
last_block (b ∷ c ∷ bs) = last_block (c ∷ bs)

unfoldable pub set_last : List Block → Block → List Block
set_last [] v = []
set_last (b ∷ []) v = v ∷ []
set_last (b ∷ c ∷ bs) v = b ∷ set_last (c ∷ bs) v

-- the room of a block, as the bit pattern of an `int32_t`
abbrev pub room : Block → ℕ
room b = (block_avail_size + 2 ^ 32 - b.nr_used) % 2 ^ 32

-- a file whose last block has room; `none` if that needs a block that there is no memory for
unfoldable pub with_room : MemFile → Outcome (Option MemFile)
unfolding grow last_block
with_room f = elim (last_block f.blocks) [
  | none ↦ done (grow f)
  | some b ↦ ensure (ltb (room b) (2 ^ 31)) >> done (if room b == 0 then grow f else some f)
]

-- one write to the last block: the count, and the file
unfoldable pub write_last : MemFile → List ℕ → Outcome (ℕ × MemFile)
unfolding last_block set_last put_bytes
write_last f buffer = elim (last_block f.blocks) [
  | none ↦ panic
  | some b ↦ (do
    let n = min (room b) (length buffer)
    ensure (ltb 0 n)
    let v : Block = record {
      nr_used = b.nr_used + n;
      content = put_bytes b.content b.nr_used buffer n;
    }
    ensure (leb v.nr_used block_avail_size)
    done (n, record f { blocks = set_last f.blocks v }))
]

-- the loop of `mem_block_raw_write_sequential`; the buffer is the bytes that are left to write
pub write_loop : ℕ → MemFile → List ℕ → Option (Outcome (ℕ × MemFile))
unfolding with_room write_last
write_loop fuel f [] = some (done (0, f))
write_loop zero f (c ∷ cs) = none
write_loop (suc fuel) f (c ∷ cs) = elim (with_room f) [
  | panic ↦ some panic
  | done none ↦ some (done (0, f))
  | done (some g) ↦ elim (write_last g (c ∷ cs)) [
    | panic ↦ some panic
    | done (n, h) ↦ elim (write_loop fuel h (drop n (c ∷ cs))) [
      | none ↦ none
      | some panic ↦ some panic
      | some (done (r, k)) ↦ some (done (n + r, k))
    ]
  ]
]

-- Every round writes a byte or ends the loop, so that the size is enough fuel.
unfoldable pub mem_block_raw_write_sequential : MemFile → List ℕ → Option (Outcome (ℕ × MemFile))
unfolding write_loop
mem_block_raw_write_sequential f buffer = write_loop (length buffer) f buffer

-- the loop of `mem_block_raw_read`
pub read_from : List Block → (offset_left left : ℕ) → Outcome (List ℕ)
read_from [] offset_left left = done []
read_from (b ∷ bs) offset_left left =
    let ignored = min b.nr_used offset_left in
    let block_left = b.nr_used - ignored in
    let n = min block_left left in
    let rest = read_from bs (offset_left - ignored) (left - n) in
    if left == 0
    then done []
    else if block_left == 0
    then rest
    else (do ensure (ltb 0 n); r ← rest; done (take n (drop ignored b.content) ++ r))

-- The result is the bytes put into the caller's buffer.
unfoldable pub mem_block_raw_read : MemFile → (offset size : ℕ) → Outcome (List ℕ)
unfolding read_from
mem_block_raw_read f offset size = read_from f.blocks offset size
