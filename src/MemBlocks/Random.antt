-- ===== src/MemBlocks/Random.antt =====
-- filesystem/memfs_blocking.c: writes at an offset, truncation, and the end of a file.
use zelda_os.Prelude.{ℕ, ◌+◌, ◌-◌, min, List, [], ◌∷◌, ◌++◌, ltb, ◌==◌, if◌then◌else◌, length, drop}
use zelda_os.Status.{Status, ok, err_out_of_memory}
use zelda_os.MemBlocks.{Block, MemFile, block_avail_size, fresh, put_bytes}

-- `MIN(offset_left, limit)` bytes of each block are passed over, up to the block in which the offset
-- lies: the blocks before it, the blocks from it on, `block_iptr` and what is left of the offset.
unfoldable pub seek : (limit : Block → ℕ) → List Block → ℕ → List Block × List Block × ℕ × ℕ
seek limit [] off = ([], [], 0, off)
seek limit (b ∷ bs) off =
    let ignored = min off (limit b) in
    let rest = seek limit bs (off - ignored) in
    if off - ignored == 0 then ([], b ∷ bs, ignored, 0) else (b ∷ rest.0, rest.1, rest.2, rest.3)

-- The loop that appends blocks until the offset is reached: the blocks before the one in which it
-- lies, that block if there is one, `block_iptr`, what is left of the offset, and the supply.
unfoldable pub extend : ℕ → List (List ℕ) → List Block × List Block × ℕ × ℕ × List (List ℕ)
extend off [] = ([], [], 0, off, [])
extend off (c ∷ cs) =
    let ignored = min block_avail_size off in
    let b : Block = record { nr_used = ignored; content = c } in
    let rest = extend (off - ignored) cs in
    if off == 0
    then ([], [], 0, 0, c ∷ cs)
    else if off - ignored == 0
    then ([], b ∷ [], ignored, 0, cs)
    else (b ∷ rest.0, rest.1, rest.2, rest.3, rest.4)

-- one write into a block, which may overwrite what is there
unfoldable pub write_at : Block → (iptr : ℕ) → List ℕ → ℕ → Block
unfolding put_bytes
write_at b iptr buffer n = record {
  nr_used = if ltb b.nr_used (iptr + n) then iptr + n else b.nr_used;
  content = put_bytes b.content iptr buffer n;
}

-- the rounds of the write loop in new blocks: the count, the blocks and the supply
unfoldable pub write_new : List ℕ → List (List ℕ) → ℕ × List Block × List (List ℕ)
unfolding write_at
write_new buffer [] = (0, [], [])
write_new buffer (c ∷ cs) =
    let n = min block_avail_size (length buffer) in
    let b = write_at (fresh c) 0 buffer n in
    let rest = write_new (drop n buffer) cs in
    if length buffer == 0
    then (0, [], c ∷ cs)
    else if length buffer - n == 0
    then (n, b ∷ [], cs)
    else (n + rest.0, b ∷ rest.1, rest.2)

-- the write loop from the current block on
unfoldable pub write_over :
    List Block → (iptr : ℕ) → List ℕ → List (List ℕ) → ℕ × List Block × List (List ℕ)
unfolding write_at write_new
write_over [] iptr buffer supply = write_new buffer supply
write_over (b ∷ bs) iptr buffer supply =
    let n = min (block_avail_size - iptr) (length buffer) in
    let v = write_at b iptr buffer n in
    let rest = write_over bs 0 (drop n buffer) supply in
    if length buffer == 0
    then (0, b ∷ bs, supply)
    else if length buffer - n == 0
    then (n, v ∷ bs, supply)
    else (n + rest.0, v ∷ rest.1, rest.2)

unfoldable pub mem_block_raw_write_random : MemFile → (offset : ℕ) → List ℕ → ℕ × MemFile
unfolding seek extend write_over
mem_block_raw_write_random f offset buffer =
    let (before, current, iptr, left) = seek (λ b. b.nr_used) f.blocks offset in
    let (more, last, last_iptr, short, supply) = extend left f.supply in
    let at = if left == 0 then current else last in
    let here = if left == 0 then iptr else last_iptr in
    let (n, written, supply') = write_over at here buffer supply in
    if left == 0
    then (n, record f { blocks = before ++ written; supply = supply' })
    else if short == 0
    then (n, record f { blocks = before ++ (more ++ written); supply = supply' })
    else (0, record f { blocks = before ++ (more ++ last); supply = supply })

-- The blocks from the current one on after the truncation: those kept and those deleted
unfoldable pub cut_blocks : List Block → (iptr : ℕ) → List Block × List Block
cut_blocks [] iptr = ([], [])
cut_blocks (b ∷ bs) iptr =
    if iptr == 0
    then ([], record b { nr_used = 0 } ∷ bs)
    else (record b { nr_used = iptr } ∷ [], bs)

-- the calls of `put_mem_block`, one after the other
abbrev pub put_all : List Block → List Block → List Block
put_all [] freed = freed
put_all (b ∷ bs) freed = put_all bs (b ∷ freed)

unfoldable pub mem_block_raw_truncate : MemFile → (offset : ℕ) → Status × MemFile
unfolding seek extend cut_blocks
mem_block_raw_truncate f offset =
    let (before, current, iptr, left) = seek (λ _. block_avail_size) f.blocks offset in
    let (more, last, last_iptr, short, supply) = extend left f.supply in
    let (kept, cut) =
      cut_blocks (if left == 0 then current else last) (if left == 0 then iptr else last_iptr) in
    if left == 0
    then (ok, record f { blocks = before ++ kept; freed = put_all cut f.freed })
    else if short == 0
    then (
      ok,
      record f { blocks = before ++ (more ++ kept); supply = supply; freed = put_all cut f.freed },
    )
    else (err_out_of_memory, record f { blocks = before ++ (more ++ last); supply = supply })

unfoldable pub mem_block_raw_reclaim : MemFile → MemFile
mem_block_raw_reclaim f = record f { blocks = []; freed = put_all f.blocks f.freed }
