-- ===== src/MemBlocks/Splice.antt =====
-- The write loop of `mem_block_raw_write_random`, from the place of the offset on.
use zelda_os.Prelude.{
  ℕ, ◌+◌, ◌-◌, ◌≤◌, min, ◌≡◌, refl, sym, ap, ap₂, ◌∙◌, ◌⊎◌, inl, inr, List, [], ◌∷◌, ◌++◌,
  append-nil, append_assoc, arith, ◌==◌, Bool-cases, length, take, drop, length-drop, drop_nil,
  take-append, drop-append, drop_all, take_split, drop-append_past,
}
use zelda_os.MemBlocks.{Block, block_avail_size}
use zelda_os.MemBlocks.Random.{write_at, write_new, write_over}
use zelda_os.MemBlocks.Bytes.{used, bytes, IsSound, IsPacked, AreWhole, length-used}
use zelda_os.MemBlocks.Seek.{IsPlace, last_or_full}
use zelda_os.MemBlocks.Place.{
  spliced, spliced_none, write_at-IsSound, write_at-used, write_at-full, write_at-keeps_full,
  full_cons, rest_done, write_new-Filled,
}

-- What the write comes to: the bytes of the buffer in place of the old ones, as many as there is
-- memory for.
abbrev pub Splices : List ℕ → ℕ → List ℕ → ℕ × List Block × List (List ℕ) → Type 0
Splices old i buffer (n, new, supply) =
    (n ≤ length buffer)
    × IsPacked new
    × (bytes new ≡ spliced old i buffer n)
    × AreWhole supply
    × ((n ≡ length buffer) ⊎ (supply ≡ []))

module _ (b : Block) (bs : List Block) (i : ℕ) (sound : IsSound b)
    (ends : (b.nr_used ≡ block_avail_size) ⊎ (bs ≡ [])) where
  pub take_front : i ≤ b.nr_used → take i (bytes (b ∷ bs)) ≡ take i (used b)
  take_front h =
      let left : i - length (used b) ≡ 0 = omega (arith, length-used b sound, h) in
      take-append i (used b) (bytes bs) ∙ rw left (append-nil (take i (used b)))

  drop_front :
      (m : ℕ) → m ≤ block_avail_size → drop m (bytes (b ∷ bs)) ≡ drop m (used b) ++ bytes bs
  drop_front m h =
      drop-append m (used b) (bytes bs) ∙ ap (λ (r : List ℕ). drop m (used b) ++ r) (back ends)
    where
      back :
          (b.nr_used ≡ block_avail_size) ⊎ (bs ≡ [])
          → drop (m - length (used b)) (bytes bs) ≡ bytes bs
      back (inl e) =
          let left : m - length (used b) ≡ 0 = omega (arith, length-used b sound, h, e) in
          rw left refl
      back (inr e) = rw e (drop_nil {A = ℕ} (m - length (used b)))

  drop_back : (m : ℕ) → drop (block_avail_size + m) (bytes (b ∷ bs)) ≡ drop m (bytes bs)
  drop_back m = by ends
    where
      by :
          (b.nr_used ≡ block_avail_size) ⊎ (bs ≡ [])
          → drop (block_avail_size + m) (bytes (b ∷ bs)) ≡ drop m (bytes bs)
      by (inl e) =
          let left : block_avail_size + m - block_avail_size ≡ m = omega arith in
          drop-append_past (block_avail_size + m) block_avail_size (used b) (bytes bs)
            (length-used b sound ∙ e) (omega arith)
          ∙ ap (λ (k : ℕ). drop k (bytes bs)) left
      by (inr e) = rw e (
          rw (append-nil (used b), drop_nil {A = ℕ} m)
            (drop_all (block_avail_size + m) (used b)
              (omega (arith, length-used b sound, sound.1))))

spliced_one :
    (b v : Block) (bs : List Block) (i n : ℕ) (buffer : List ℕ)
    → IsSound b × ((b.nr_used ≡ block_avail_size) ⊎ (bs ≡ []))
    → i ≤ b.nr_used
    → i + n ≤ block_avail_size
    → used v ≡ spliced (used b) i buffer n
    → bytes (v ∷ bs) ≡ spliced (bytes (b ∷ bs)) i buffer n
spliced_one b v bs i n buffer (sound, ends) h low vs =
    ap (λ (r : List ℕ). r ++ bytes bs) vs
    ∙ append_assoc (take i (used b)) (take n buffer ++ drop (i + n) (used b)) (bytes bs)
    ∙ rw (take_front b bs i sound ends h, drop_front b bs i sound ends (i + n) low)
        (ap (λ (r : List ℕ). take i (used b) ++ r)
          (append_assoc (take n buffer) (drop (i + n) (used b)) (bytes bs)))

spliced_two :
    (b v : Block) (bs : List Block) (new : List Block) (i n r : ℕ) (buffer : List ℕ)
    → IsSound b × ((b.nr_used ≡ block_avail_size) ⊎ (bs ≡ []))
    → i ≤ b.nr_used
    → i + n ≡ block_avail_size
    → used v ≡ spliced (used b) i buffer n
    → bytes new ≡ spliced (bytes bs) 0 (drop n buffer) r
    → bytes (v ∷ new) ≡ spliced (bytes (b ∷ bs)) i buffer (n + r)
spliced_two b v bs new i n r buffer (sound, ends) h full vs news =
    let over : length (used b) ≤ i + n = omega (arith, length-used b sound, sound.1, full) in
    let zero_r : 0 + r ≡ r = omega arith in
    let at : i + (n + r) ≡ block_avail_size + r = omega (arith, full) in
    let front = take_front b bs i sound ends h in
    let back = drop_back b bs i sound ends r in
    let v_is : used v ≡ take i (used b) ++ take n buffer =
      vs ∙ rw (drop_all (i + n) (used b) over, append-nil (take n buffer)) refl in
    let new_is : bytes new ≡ take r (drop n buffer) ++ drop r (bytes bs) =
      news ∙ ap (λ (k : ℕ). take r (drop n buffer) ++ drop k (bytes bs)) zero_r in
    ap₂ (λ (l r : List ℕ). l ++ r) v_is new_is
    ∙ append_assoc (take i (used b)) (take n buffer) (take r (drop n buffer) ++ drop r (bytes bs))
    ∙ rw
        (
          front,
          at,
          back,
          take_split n r buffer,
          append_assoc (take n buffer) (take r (drop n buffer)) (drop r (bytes bs)),
        )
        refl

pub write_over-Splices :
    (bs : List Block) (i : ℕ) (buffer : List ℕ) (supply : List (List ℕ))
    → IsPacked bs
    → IsPlace bs i
    → AreWhole supply
    → Splices (bytes bs) i buffer (write_over bs i buffer supply)
unfolding write_over
write_over-Splices [] i buffer supply packed place whole =
    let (le, p, same, w, ended) = write_new-Filled buffer supply whole in
    let n : ℕ = (write_new buffer supply).0 in
    (
      le,
      p,
      same ∙ rw (place, drop_nil {A = ℕ} (0 + n)) (sym (append-nil (take n buffer))),
      w,
      ended,
    )
write_over-Splices (b ∷ bs) i buffer supply packed place whole =
    let (sound, ends, packed') = last_or_full b bs packed in
    let n : ℕ = min (block_avail_size - i) (length buffer) in
    let v : Block = write_at b i buffer n in
    let low : i + n ≤ block_avail_size = omega (arith, place, sound.1) in
    let have : n ≤ length buffer = omega arith in
    let v_sound : IsSound v = write_at-IsSound b i buffer n sound place low have in
    let v_used : used v ≡ spliced (used b) i buffer n =
      write_at-used b i buffer n sound place low have in
    let rest = write_over-Splices bs 0 (drop n buffer) supply packed' (starts bs) whole in
    let r = write_over bs 0 (drop n buffer) supply in
    elim (Bool-cases (length buffer == 0)) [
      | inl nothing ↦ rw nothing (
        omega arith,
        packed,
        sym (spliced_none (bytes (b ∷ bs)) i buffer),
        whole,
        inl (ground arith),
      )
      | inr something ↦ elim (Bool-cases (length buffer - n == 0)) [
        | inl last ↦
            rw (something, last)
              (
                have,
                same_shape b v bs packed v_sound (write_at-keeps_full b i buffer n low),
                spliced_one b v bs i n buffer (sound, ends) place low v_used,
                whole,
                inl (ground arith),
              )
        | inr more ↦
            let full : i + n ≡ block_avail_size = ground arith in
            rw (something, more)
              (
                omega (arith, rest.0, length-drop n buffer, have),
                full_cons v r.1 v_sound (write_at-full b i buffer n sound full) rest.1,
                spliced_two b v bs r.1 i n r.0 buffer (sound, ends) place full v_used rest.2,
                rest.3,
                rest_done n r.0 buffer r.2 have rest.4,
              )
      ]
    ]
  where
    starts : (bs : List Block) → IsPlace bs 0
    starts [] = refl
    starts (c ∷ cs) = omega arith

    same_shape :
        (b v : Block) (bs : List Block)
        → IsPacked (b ∷ bs)
        → IsSound v
        → (b.nr_used ≡ block_avail_size → v.nr_used ≡ block_avail_size)
        → IsPacked (v ∷ bs)
    same_shape b v [] p s e = s
    same_shape b v (c ∷ cs) p s e = (s, e p.1, p.2)
