-- ===== src/MemBlocks/Tail.antt =====
-- The last block of a file: making room in it, and one write to it.
use zelda_os.Prelude.{
  ℕ, ◌+◌, ◌-◌, ◌^◌, ◌≤◌, ◌<◌, min, ◌≡◌, refl, sym, ap, subst, ◌∙◌, inl, inr, true, Option, none,
  some, List, [], ◌∷◌, ◌++◌, append-nil, append_assoc, arith, ltb, leb, ◌==◌, Bool-cases, length,
  take, Ends,
}
use zelda_os.MemBlocks.{
  Block, MemFile, block_avail_size, fresh, grow, put_bytes, last_block, set_last, room, with_room,
  write_last,
}
use zelda_os.MemBlocks.Bytes.{
  used, bytes, IsSound, IsPacked, AreWhole, bytes-append, length-put_bytes, take-put_bytes,
}

last_split :
    (bs : List Block) (b : Block)
    → last_block bs ≡ some b
    → (pre : List Block) × (bs ≡ pre ++ b ∷ [])
unfolding last_block
last_split [] b e = absurd (ground arith)
last_split (c ∷ []) b e = ([], let same : c ≡ b = ground arith in ap (λ (x : Block). x ∷ []) same)
last_split (c ∷ d ∷ bs) b e =
    let (pre, p) = last_split (d ∷ bs) b e in (c ∷ pre, ap (λ (r : List Block). c ∷ r) p)

last_none : (bs : List Block) → last_block bs ≡ none → bs ≡ []
unfolding last_block
last_none [] e = refl
last_none (c ∷ []) e = absurd (ground arith)
last_none (c ∷ d ∷ bs) e = absurd (cons_some (d ∷ bs) d bs refl e)
  where
    cons_some :
        (xs : List Block) (d : Block) (bs : List Block) → xs ≡ d ∷ bs → last_block xs ≡ none → ⊥
    cons_some [] d bs p e = ground arith
    cons_some (c ∷ []) d bs p e = ground arith
    cons_some (c ∷ x ∷ xs) d bs p e = cons_some (x ∷ xs) x xs refl e

pub last_block-snoc : (pre : List Block) (b : Block) → last_block (pre ++ b ∷ []) ≡ some b
unfolding last_block
last_block-snoc [] b = refl
last_block-snoc (c ∷ []) b = refl
last_block-snoc (c ∷ d ∷ pre) b = last_block-snoc (d ∷ pre) b

set_last-snoc : (pre : List Block) (b v : Block) → set_last (pre ++ b ∷ []) v ≡ pre ++ v ∷ []
unfolding set_last
set_last-snoc [] b v = refl
set_last-snoc (c ∷ []) b v = refl
set_last-snoc (c ∷ d ∷ pre) b v = ap (λ (r : List Block). c ∷ r) (set_last-snoc (d ∷ pre) b v)

-- all blocks of the list are full
abbrev pub AreFull : List Block → Type 0
AreFull [] = Unit
AreFull (b ∷ bs) = (IsSound b × (b.nr_used ≡ block_avail_size)) × AreFull bs

pub packed_parts :
    (pre : List Block) (b : Block) → IsPacked (pre ++ b ∷ []) → AreFull pre × IsSound b
packed_parts [] b p = (tt, p)
packed_parts (c ∷ []) b p = (((p.0, p.1), tt), p.2)
packed_parts (c ∷ d ∷ pre) b p =
    let (full, s) = packed_parts (d ∷ pre) b p.2 in (((p.0, p.1), full), s)

pub IsPacked-join :
    (pre : List Block) (b : Block) → AreFull pre → IsSound b → IsPacked (pre ++ b ∷ [])
IsPacked-join [] b f s = s
IsPacked-join (c ∷ []) b f s = (f.0.0, f.0.1, s)
IsPacked-join (c ∷ d ∷ pre) b f s = (f.0.0, f.0.1, IsPacked-join (d ∷ pre) b f.1 s)

full_snoc :
    (pre : List Block) (b : Block)
    → AreFull pre
    → IsSound b
    → b.nr_used ≡ block_avail_size
    → AreFull (pre ++ b ∷ [])
full_snoc [] b f s e = ((s, e), tt)
full_snoc (c ∷ pre) b f s e = (f.0, full_snoc pre b f.1 s e)

pub bytes-snoc : (pre : List Block) (b : Block) → bytes (pre ++ b ∷ []) ≡ bytes pre ++ used b
bytes-snoc pre b =
    bytes-append pre (b ∷ []) ∙ ap (λ (r : List ℕ). bytes pre ++ r) (append-nil (used b))

-- a packed file whose last block has room, with the bytes `bs`
abbrev pub HasRoom : MemFile → List ℕ → Type 0
HasRoom f text =
    (pre : List Block) × (b : Block) × (f.blocks ≡ pre ++ b ∷ [])
    × AreFull pre
    × IsSound b
    × (b.nr_used < block_avail_size)
    × (bytes f.blocks ≡ text)
    × AreWhole f.supply

-- what `with_room` comes to
abbrev pub RoomFor : MemFile → Option MemFile → Type 0
RoomFor f none = f.supply ≡ []
RoomFor f (some g) = HasRoom g (bytes f.blocks)

room_small : (b : Block) → b.nr_used ≤ block_avail_size → room b ≡ block_avail_size - b.nr_used
room_small b h = omega arith

module _ (pre : List Block) (freed : List Block) where
  -- one more block behind full ones
  grow_full :
      (supply : List (List ℕ))
      → AreFull pre
      → AreWhole supply
      → RoomFor
          (record { blocks = pre; supply = supply; freed = freed })
          (grow (record { blocks = pre; supply = supply; freed = freed }))
  unfolding grow
  grow_full [] full whole = refl
  grow_full (c ∷ cs) full whole = (
    pre,
    fresh c,
    refl,
    full,
    (whole.0, omega arith),
    omega arith,
    bytes-snoc pre (fresh c) ∙ append-nil (bytes pre),
    whole.1,
  )

with_room_at :
    (pre : List Block) (b : Block) (supply : List (List ℕ)) (freed : List Block)
    → AreFull pre
    → IsSound b
    → AreWhole supply
    → Ends
        (with_room (record { blocks = pre ++ b ∷ []; supply = supply; freed = freed }))
        (RoomFor (record { blocks = pre ++ b ∷ []; supply = supply; freed = freed }))
unfolding with_room
with_room_at pre b supply freed full sound whole =
    let last = last_block-snoc pre b in
    let left = room_small b sound.1 in
    let fits : ltb (block_avail_size - b.nr_used) (2 ^ 31) ≡ true = ground arith in
    elim (Bool-cases (block_avail_size - b.nr_used == 0)) [
      | inl is_full ↦
          let e : b.nr_used ≡ block_avail_size = let s = sound.1 in ground arith in
          rw (last, with_room, left, fits, is_full)
            (grow_full (pre ++ b ∷ []) freed supply (full_snoc pre b full sound e) whole)
      | inr has_room ↦
          let low : b.nr_used < block_avail_size = ground arith in
          rw (last, with_room, left, fits, has_room) (pre, b, refl, full, sound, low, refl, whole)
    ]

pub with_room-RoomFor :
    (f : MemFile) → IsPacked f.blocks → AreWhole f.supply → Ends (with_room f) (RoomFor f)
unfolding with_room
with_room-RoomFor f packed whole = by_last (last_block f.blocks) refl
  where
    by_last : (o : Option Block) → last_block f.blocks ≡ o → Ends (with_room f) (RoomFor f)
    by_last none e =
        let nothing = last_none f.blocks e in
        subst
          (λ (bs : List Block).
            Ends (with_room (record f { blocks = bs })) (RoomFor (record f { blocks = bs })))
          (sym nothing) (grow_full [] f.freed f.supply tt whole)
    by_last (some b) e =
        let (pre, p) = last_split f.blocks b e in
        let (full, sound) =
          packed_parts pre b (subst (λ (bs : List Block). IsPacked bs) p packed) in
        subst
          (λ (bs : List Block).
            Ends (with_room (record f { blocks = bs })) (RoomFor (record f { blocks = bs })))
          (sym p) (with_room_at pre b f.supply f.freed full sound whole)

-- one write: some of the bytes go behind those that are there
abbrev pub WroteSome : List ℕ → List ℕ → ℕ × MemFile → Type 0
WroteSome text buffer (n, g) =
    (0 < n)
    × (n ≤ length buffer)
    × IsPacked g.blocks
    × (bytes g.blocks ≡ text ++ take n buffer)
    × AreWhole g.supply

pub write_last_at :
    (pre : List Block) (b : Block) (supply : List (List ℕ)) (freed : List Block) (buffer : List ℕ)
    → AreFull pre
    → IsSound b
    → b.nr_used < block_avail_size
    → AreWhole supply
    → 0 < length buffer
    → Ends
        (write_last (record { blocks = pre ++ b ∷ []; supply = supply; freed = freed }) buffer)
        (WroteSome (bytes (pre ++ b ∷ [])) buffer)
unfolding write_last
write_last_at pre b supply freed buffer full sound low whole some_bytes =
    let last = last_block-snoc pre b in
    let left = room_small b sound.1 in
    let n : ℕ = min (block_avail_size - b.nr_used) (length buffer) in
    let n_pos : ltb 0 (min (block_avail_size - b.nr_used) (length buffer)) ≡ true = ground arith in
    let n_fits : leb (b.nr_used + min (block_avail_size - b.nr_used) (length buffer))
          block_avail_size
        ≡ true =
      ground arith in
    let fits : b.nr_used + n ≤ length b.content = omega (arith, sound.0, low) in
    let have : n ≤ length buffer = omega arith in
    let v : Block = record {
      nr_used = b.nr_used + n;
      content = put_bytes b.content b.nr_used buffer n;
    } in
    let v_sound : IsSound v =
      (length-put_bytes b.content buffer b.nr_used n fits have ∙ sound.0, omega (arith, low)) in
    let v_used : used v ≡ used b ++ take n buffer =
      take-put_bytes b.content buffer b.nr_used n fits have in
    rw (last, write_last, left, n_pos, n_fits, set_last-snoc pre b v)
      (
        omega (arith, low, some_bytes),
        have,
        IsPacked-join pre v full v_sound,
        bytes-snoc pre v
            ∙ ap (λ (r : List ℕ). bytes pre ++ r) v_used
            ∙ sym (append_assoc (bytes pre) (used b) (take n buffer))
            ∙ ap (λ (r : List ℕ). r ++ take n buffer) (sym (bytes-snoc pre b)),
        whole,
      )
