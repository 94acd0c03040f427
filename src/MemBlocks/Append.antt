-- ===== src/MemBlocks/Append.antt =====
-- `mem_block_raw_write_sequential` adds to the end of a file.
use zelda_os.Prelude.{
  ℕ, zero, suc, ◌+◌, ◌≤◌, ◌<◌, ◌≡◌, refl, sym, ap, subst, ◌∙◌, ◌⊎◌, inl, inr, Option, none, some,
  List, [], ◌∷◌, ◌++◌, append-nil, append_assoc, arith, length, take, drop, length-drop, take_split,
  Outcome, done, panic, Ends, Yields,
}
use zelda_os.MemBlocks.{
  Block, MemFile, room, with_room, write_last, write_loop, mem_block_raw_write_sequential,
}
use zelda_os.MemBlocks.Bytes.{bytes, IsPacked, AreWhole}
use zelda_os.MemBlocks.Tail.{HasRoom, RoomFor, with_room-RoomFor, WroteSome, write_last_at}

-- Of the bytes, the first `n` are behind those that were there: all of them, or as many as there is
-- memory for.
abbrev pub Wrote : MemFile → List ℕ → ℕ × MemFile → Type 0
Wrote f buffer (n, g) =
    (n ≤ length buffer)
    × IsPacked g.blocks
    × (bytes g.blocks ≡ bytes f.blocks ++ take n buffer)
    × AreWhole g.supply
    × ((n ≡ length buffer) ⊎ (g.supply ≡ []))

written_in_two :
    (f h : MemFile) (buffer : List ℕ) (n : ℕ) (r : ℕ × MemFile)
    → WroteSome (bytes f.blocks) buffer (n, h)
    → Wrote h (drop n buffer) r
    → Wrote f buffer (n + r.0, r.1)
written_in_two f h buffer n r one two =
    let rest = length-drop n buffer in
    (
      omega (arith, rest, one.1, two.0),
      two.1,
      two.2
          ∙ ap (λ (t : List ℕ). t ++ take r.0 (drop n buffer)) one.3
          ∙ append_assoc (bytes f.blocks) (take n buffer) (take r.0 (drop n buffer))
          ∙ ap (λ (t : List ℕ). bytes f.blocks ++ t) (sym (take_split n r.0 buffer)),
      two.3,
      ended two.4,
    )
  where
    ended :
        (r.0 ≡ length (drop n buffer)) ⊎ (r.1.supply ≡ [])
        → (n + r.0 ≡ length buffer) ⊎ (r.1.supply ≡ [])
    ended (inl all) = inl (omega (arith, length-drop n buffer, one.1, all))
    ended (inr short) = inr short

write_last-WroteSome :
    (f g : MemFile) (buffer : List ℕ)
    → HasRoom g (bytes f.blocks)
    → 0 < length buffer
    → Ends (write_last g buffer) (WroteSome (bytes f.blocks) buffer)
write_last-WroteSome f g buffer (pre, b, p, full, sound, low, same, whole) some_bytes =
    subst (λ (t : List ℕ). Ends (write_last g buffer) (WroteSome t buffer)) same
      (subst
        (λ (bs : List Block).
          Ends (write_last (record g { blocks = bs }) buffer) (WroteSome (bytes bs) buffer))
        (sym p) (write_last_at pre b g.supply g.freed buffer full sound low whole some_bytes))

-- one round of the loop, from what the rest of the loop does
round_Wrote :
    (fuel : ℕ) (f : MemFile) (c : ℕ) (cs : List ℕ)
    → IsPacked f.blocks
    → AreWhole f.supply
    → ((h : MemFile) (n : ℕ)
        → 0 < n
        → IsPacked h.blocks
        → AreWhole h.supply
        → Yields (write_loop fuel h (drop n (c ∷ cs))) (Wrote h (drop n (c ∷ cs))))
    → Yields (write_loop (suc fuel) f (c ∷ cs)) (Wrote f (c ∷ cs))
unfolding write_loop
round_Wrote fuel f c cs packed whole on =
    by_room (with_room f) refl (with_room-RoomFor f packed whole)
  where
    by_rest :
        (g h : MemFile) (n : ℕ) (o : Option (Outcome (ℕ × MemFile)))
        → with_room f ≡ done (some g)
        → write_last g (c ∷ cs) ≡ done (n, h)
        → write_loop fuel h (drop n (c ∷ cs)) ≡ o
        → WroteSome (bytes f.blocks) (c ∷ cs) (n, h)
        → Yields o (Wrote h (drop n (c ∷ cs)))
        → Yields (write_loop (suc fuel) f (c ∷ cs)) (Wrote f (c ∷ cs))
    by_rest g h n none e w k one two = absurd two
    by_rest g h n (some panic) e w k one two = absurd two
    by_rest g h n (some (done r)) e w k one two =
        rw (e, write_loop, w, k) (written_in_two f h (c ∷ cs) n r one two)

    by_write :
        (g : MemFile) (o : Outcome (ℕ × MemFile))
        → with_room f ≡ done (some g)
        → write_last g (c ∷ cs) ≡ o
        → Ends o (WroteSome (bytes f.blocks) (c ∷ cs))
        → Yields (write_loop (suc fuel) f (c ∷ cs)) (Wrote f (c ∷ cs))
    by_write g panic e w one = absurd one
    by_write g (done (n, h)) e w one =
        by_rest g h n (write_loop fuel h (drop n (c ∷ cs))) e w refl one (on h n one.0 one.2 one.4)

    by_room :
        (o : Outcome (Option MemFile))
        → with_room f ≡ o
        → Ends o (RoomFor f)
        → Yields (write_loop (suc fuel) f (c ∷ cs)) (Wrote f (c ∷ cs))
    by_room panic e room = absurd room
    by_room (done none) e room =
        rw (e, write_loop) (omega arith, packed, sym (append-nil (bytes f.blocks)), whole, inr room)
    by_room (done (some g)) e room =
        by_write g (write_last g (c ∷ cs)) e refl
          (write_last-WroteSome f g (c ∷ cs) room (omega arith))

write_loop-Wrote :
    (fuel : ℕ) (f : MemFile) (buffer : List ℕ)
    → length buffer ≤ fuel
    → IsPacked f.blocks
    → AreWhole f.supply
    → Yields (write_loop fuel f buffer) (Wrote f buffer)
unfolding write_loop
write_loop-Wrote zero f [] enough packed whole =
    (omega arith, packed, sym (append-nil (bytes f.blocks)), whole, inl refl)
write_loop-Wrote (suc fuel) f [] enough packed whole =
    (omega arith, packed, sym (append-nil (bytes f.blocks)), whole, inl refl)
write_loop-Wrote zero f (c ∷ cs) enough packed whole = absurd (omega arith)
write_loop-Wrote (suc fuel) f (c ∷ cs) enough packed whole =
    round_Wrote fuel f c cs packed whole (λ h n pos p w.
      write_loop-Wrote fuel h (drop n (c ∷ cs)) (omega (arith, length-drop n (c ∷ cs), pos, enough))
        p w)

-- For a file whose blocks but the last one are full, and an allocator that returns whole blocks,
-- `mem_block_raw_write_sequential` ends, fails no ASSERT, and adds the bytes to the end of the
-- file: all of them, or as many as there is memory for. It returns their number, and the blocks
-- but the last one are full again.
pub mem_block_raw_write_sequential-Wrote :
    (f : MemFile) (buffer : List ℕ)
    → IsPacked f.blocks
    → AreWhole f.supply
    → Yields (mem_block_raw_write_sequential f buffer) (Wrote f buffer)
unfolding mem_block_raw_write_sequential
mem_block_raw_write_sequential-Wrote f buffer packed whole =
    write_loop-Wrote (length buffer) f buffer (omega arith) packed whole
