-- ===== src/MemBlocks/Overwrite.antt =====
-- `mem_block_raw_write_random` replaces bytes of a file, within it and past its end.
use zelda_os.Prelude.{
  ℕ, ◌+◌, ◌-◌, ◌≤◌, ◌≡◌, refl, sym, ap, ap₂, ◌∙◌, ◌⊎◌, List, [], ◌∷◌, ◌++◌, append-nil,
  append_assoc, arith, length, take, drop, length-take, take-append_past, drop-append_past, done,
}
use zelda_os.MemBlocks.{Block, MemFile, mem_block_raw_read}
use zelda_os.MemBlocks.Random.{seek, extend, write_over, mem_block_raw_write_random}
use zelda_os.MemBlocks.Bytes.{bytes, IsPacked, AreWhole, bytes-append, AreSound-IsPacked}
use zelda_os.MemBlocks.Tail.{AreFull}
use zelda_os.MemBlocks.Seek.{seek-Found, by_used}
use zelda_os.MemBlocks.Place.{spliced, full_cons}
use zelda_os.MemBlocks.Splice.{write_over-Splices}
use zelda_os.MemBlocks.Read.{mem_block_raw_read-bytes}

spliced-append :
    (xs ys : List ℕ) (off i : ℕ) (buffer : List ℕ) (n : ℕ)
    → off ≡ length xs + i
    → spliced (xs ++ ys) off buffer n ≡ xs ++ spliced ys i buffer n
spliced-append xs ys off i buffer n e =
    let at : off - length xs ≡ i = omega (arith, e) in
    let past : off + n - length xs ≡ i + n = omega (arith, e) in
    ap₂ (λ (l r : List ℕ). l ++ (take n buffer ++ r))
      (take-append_past off (length xs) xs ys refl (omega (arith, e))
        ∙ ap (λ (k : ℕ). xs ++ take k ys) at)
      (drop-append_past (off + n) (length xs) xs ys refl (omega (arith, e))
        ∙ ap (λ (k : ℕ). drop k ys) past)
    ∙ append_assoc xs (take i ys) (take n buffer ++ drop (i + n) ys)

pub IsPacked-behind : (bs cs : List Block) → AreFull bs → IsPacked cs → IsPacked (bs ++ cs)
IsPacked-behind [] cs full p = p
IsPacked-behind (b ∷ bs) cs full p =
    full_cons b (bs ++ cs) full.0.0 full.0.1 (IsPacked-behind bs cs full.1 p)

-- the file after the write
abbrev pub Overwrote : MemFile → ℕ → List ℕ → ℕ × MemFile → Type 0
Overwrote f offset buffer (n, g) =
    (n ≤ length buffer)
    × IsPacked g.blocks
    × (bytes g.blocks ≡ spliced (bytes f.blocks) offset buffer n)
    × AreWhole g.supply
    × ((n ≡ length buffer) ⊎ (g.supply ≡ []))

pub no_more : (supply : List (List ℕ)) → extend 0 supply ≡ ([], [], 0, 0, supply)
unfolding extend
no_more [] = refl
no_more (c ∷ cs) = refl

-- For a file whose blocks but the last one are full, an allocator that returns whole blocks, and
-- an offset that is not past the end of the file, the bytes of the buffer are put in place of
-- those from the offset on, beyond the end of the file too: all of them, or as many as there is
-- memory for. `mem_block_raw_write_random` returns their number, and the blocks but the last one
-- are full again.
pub mem_block_raw_write_random-Overwrote :
    (f : MemFile) (offset : ℕ) (buffer : List ℕ)
    → IsPacked f.blocks
    → AreWhole f.supply
    → offset ≤ length (bytes f.blocks)
    → Overwrote f offset buffer (mem_block_raw_write_random f offset buffer)
unfolding mem_block_raw_write_random
mem_block_raw_write_random-Overwrote f offset buffer packed whole inside =
    let (left, split, full, packed', place, at) =
      seek-Found (λ b. b.nr_used) by_used f.blocks offset packed inside in
    let s = seek (λ b. b.nr_used) f.blocks offset in
    let (le, p, same, w, ended) = write_over-Splices s.1 s.2 buffer f.supply packed' place whole in
    let r = write_over s.1 s.2 buffer f.supply in
    let total : bytes (s.0 ++ r.1) ≡ spliced (bytes f.blocks) offset buffer r.0 =
      bytes-append s.0 r.1
      ∙ ap (λ (t : List ℕ). bytes s.0 ++ t) same
      ∙ sym (spliced-append (bytes s.0) (bytes s.1) offset s.2 buffer r.0 at)
      ∙ ap (λ (t : List ℕ). spliced t offset buffer r.0)
          (sym (ap bytes split ∙ bytes-append s.0 s.1)) in
    rw (left, no_more f.supply) (le, IsPacked-behind s.0 r.1 full p, total, w, ended)

spliced-back :
    (old : List ℕ) (i : ℕ) (buffer : List ℕ) (n : ℕ)
    → i ≤ length old
    → n ≤ length buffer
    → take n (drop i (spliced old i buffer n)) ≡ take n buffer
spliced-back old i buffer n h have =
    let li : length (take i old) ≡ i = length-take i old ∙ omega (arith, h) in
    let ln : length (take n buffer) ≡ n = length-take n buffer ∙ omega (arith, have) in
    let zero_i : i - i ≡ 0 = omega arith in
    let zero_n : n - n ≡ 0 = omega arith in
    ap (take n) (
      drop-append_past i i (take i old) (take n buffer ++ drop (i + n) old) li (omega arith)
      ∙ ap (λ (k : ℕ). drop k (take n buffer ++ drop (i + n) old)) zero_i)
    ∙ take-append_past n n (take n buffer) (drop (i + n) old) ln (omega arith)
    ∙ ap (λ (k : ℕ). take n buffer ++ take k (drop (i + n) old)) zero_n
    ∙ append-nil (take n buffer)

-- Under the same conditions, a read at the offset after the write returns the bytes that were
-- written.
pub mem_block_raw_read-written :
    (f : MemFile) (offset : ℕ) (buffer : List ℕ)
    → IsPacked f.blocks
    → AreWhole f.supply
    → offset ≤ length (bytes f.blocks)
    → mem_block_raw_read
        (mem_block_raw_write_random f offset buffer).1
        offset
        (mem_block_raw_write_random f offset buffer).0
      ≡ done (take (mem_block_raw_write_random f offset buffer).0 buffer)
mem_block_raw_read-written f offset buffer packed whole inside =
    let (le, p, same, w, ended) =
      mem_block_raw_write_random-Overwrote f offset buffer packed whole inside in
    let (n, g) = mem_block_raw_write_random f offset buffer in
    mem_block_raw_read-bytes g offset n (AreSound-IsPacked g.blocks p)
    ∙ ap (λ (t : List ℕ). done (take n (drop offset t))) same
    ∙ ap done (spliced-back (bytes f.blocks) offset buffer n inside le)
