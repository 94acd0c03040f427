-- ===== src/MemBlocks/Place.antt =====
-- One write into a block, and the writes into new blocks.
use zelda_os.Prelude.{
  ℕ, zero, suc, ◌+◌, ◌-◌, ◌≤◌, min, ◌≡◌, refl, sym, ap, ap₂, ◌∙◌, ◌⊎◌, inl, inr, false, List, [],
  ◌∷◌, ◌++◌, append-nil, arith, ltb, ◌==◌, Bool-cases, length, take, drop, length-take, length-drop,
  drop_nil, drop_all, take-take, take_split, take-drop, take-append_past,
}
use zelda_os.MemBlocks.{Block, block_avail_size, fresh}
use zelda_os.MemBlocks.Random.{write_at, write_new}
use zelda_os.MemBlocks.Bytes.{
  used, bytes, IsSound, IsPacked, AreWhole, length-used, put_bytes-eq, length-put_bytes,
  take-put_bytes,
}

-- `n` bytes of the buffer in place of those at the offset
abbrev pub spliced : List ℕ → ℕ → List ℕ → ℕ → List ℕ
spliced old i buffer n = take i old ++ (take n buffer ++ drop (i + n) old)

pub spliced_none : (old : List ℕ) (i : ℕ) (buffer : List ℕ) → spliced old i buffer 0 ≡ old
spliced_none old i buffer = let e : i + 0 ≡ i = omega arith in rw e (take-drop_all i old)
  where
    take-drop_all : (i : ℕ) (xs : List ℕ) → take i xs ++ drop i xs ≡ xs
    take-drop_all zero xs = refl
    take-drop_all (suc i) [] = refl
    take-drop_all (suc i) (x ∷ xs) = ap (λ (r : List ℕ). x ∷ r) (take-drop_all i xs)

module _ (b : Block) (i : ℕ) (buffer : List ℕ) (n : ℕ) (sound : IsSound b) (inside : i ≤ b.nr_used)
    (fits : i + n ≤ block_avail_size) (have : n ≤ length buffer) where
  pub write_at-IsSound : IsSound (write_at b i buffer n)
  unfolding write_at
  write_at-IsSound = (
    length-put_bytes b.content buffer i n (omega (arith, sound.0, fits)) have ∙ sound.0,
    elim (Bool-cases (ltb b.nr_used (i + n))) [ inl e ↦ rw e fits | inr e ↦ rw e sound.1 ],
  )

  pub write_at-used : used (write_at b i buffer n) ≡ spliced (used b) i buffer n
  unfolding write_at
  write_at-used =
      let put = put_bytes-eq b.content buffer i n (omega (arith, sound.0, fits)) have in
      let upto = take-put_bytes b.content buffer i n (omega (arith, sound.0, fits)) have in
      let front : take i (used b) ≡ take i b.content =
        take-take i b.nr_used b.content
        ∙ ap (λ (m : ℕ). take m b.content) (omega (arith, inside)) in
      elim (Bool-cases (ltb b.nr_used (i + n))) [
        | inl past ↦
            let over : length (used b) ≤ i + n = let k = length-used b sound in ground arith in
            rw (past, upto, front, drop_all (i + n) (used b) over, append-nil (take n buffer)) refl
        | inr within ↦
            let k : i + n ≤ b.nr_used = ground arith in
            let li : length (take i b.content) ≡ i =
              length-take i b.content ∙ omega (arith, sound.0, sound.1, inside) in
            let ln : length (take n buffer) ≡ n = length-take n buffer ∙ omega (arith, have) in
            let left : b.nr_used - i - n ≡ b.nr_used - (i + n) = omega arith in
            let whole : i + n + (b.nr_used - (i + n)) ≡ b.nr_used = omega (arith, k) in
            let back : drop (i + n) (used b) ≡ take (b.nr_used - i - n) (drop (i + n) b.content) =
              ap (λ (m : ℕ). drop (i + n) (take m b.content)) (sym whole)
              ∙ sym (take-drop (b.nr_used - (i + n)) (i + n) b.content)
              ∙ ap (λ (m : ℕ). take m (drop (i + n) b.content)) (sym left) in
            rw (within, back, front, put)
              (take-append_past b.nr_used i (take i b.content)
                  (take n buffer ++ drop (i + n) b.content) li inside
                ∙ ap (λ (r : List ℕ). take i b.content ++ r)
                    (take-append_past (b.nr_used - i) n (take n buffer) (drop (i + n) b.content) ln
                      (omega (arith, k))))
      ]

pub write_at-full :
    (b : Block) (i : ℕ) (buffer : List ℕ) (n : ℕ)
    → IsSound b
    → i + n ≡ block_avail_size
    → (write_at b i buffer n).nr_used ≡ block_avail_size
unfolding write_at
write_at-full b i buffer n sound e = elim (Bool-cases (ltb b.nr_used (i + n))) [
  | inl past ↦ rw past e
  | inr within ↦ rw within (let s = sound.1 in ground arith)
]

pub write_at-keeps_full :
    (b : Block) (i : ℕ) (buffer : List ℕ) (n : ℕ)
    → i + n ≤ block_avail_size
    → b.nr_used ≡ block_avail_size
    → (write_at b i buffer n).nr_used ≡ block_avail_size
unfolding write_at
write_at-keeps_full b i buffer n low e =
    let within : ltb b.nr_used (i + n) ≡ false = ground arith in rw within e

-- What a write in new blocks comes to: the bytes of the buffer, as many as there is memory for.
abbrev pub Filled : List ℕ → ℕ × List Block × List (List ℕ) → Type 0
Filled buffer (n, new, supply) =
    (n ≤ length buffer)
    × IsPacked new
    × (bytes new ≡ take n buffer)
    × AreWhole supply
    × ((n ≡ length buffer) ⊎ (supply ≡ []))

pub full_cons :
    (b : Block) (bs : List Block)
    → IsSound b
    → b.nr_used ≡ block_avail_size
    → IsPacked bs
    → IsPacked (b ∷ bs)
full_cons b [] s e p = s
full_cons b (c ∷ bs) s e p = (s, e, p)

pub rest_done :
    (n r : ℕ) (buffer : List ℕ) (supply : List (List ℕ))
    → n ≤ length buffer
    → (r ≡ length (drop n buffer)) ⊎ (supply ≡ [])
    → (n + r ≡ length buffer) ⊎ (supply ≡ [])
rest_done n r buffer supply h (inl all) = inl (omega (arith, length-drop n buffer, h, all))
rest_done n r buffer supply h (inr short) = inr short

pub write_new-Filled :
    (buffer : List ℕ) (supply : List (List ℕ))
    → AreWhole supply
    → Filled buffer (write_new buffer supply)
unfolding write_new
write_new-Filled buffer [] whole = (omega arith, tt, refl, tt, inr refl)
write_new-Filled buffer (c ∷ cs) whole =
    let n : ℕ = min block_avail_size (length buffer) in
    let b : Block = write_at (fresh c) 0 buffer n in
    let low : 0 + n ≤ block_avail_size = omega arith in
    let have : n ≤ length buffer = omega arith in
    let c_sound : IsSound (fresh c) = (whole.0, omega arith) in
    let sound : IsSound b = write_at-IsSound (fresh c) 0 buffer n c_sound (omega arith) low have in
    let holds : used b ≡ take n buffer =
      write_at-used (fresh c) 0 buffer n c_sound (omega arith) low have
      ∙ rw (drop_nil {A = ℕ} (0 + n)) (append-nil (take n buffer)) in
    let rest = write_new-Filled (drop n buffer) cs whole.1 in
    elim (Bool-cases (length buffer == 0)) [
      | inl nothing ↦ rw (nothing) (omega arith, tt, refl, whole, inl (ground arith))
      | inr something ↦ elim (Bool-cases (length buffer - n == 0)) [
        | inl ends ↦
            rw (something, ends)
              (have, sound, append-nil (used b) ∙ holds, whole.1, inl (ground arith))
        | inr more ↦
            let full : b.nr_used ≡ block_avail_size =
              write_at-full (fresh c) 0 buffer n c_sound (ground arith) in
            rw (something, more)
              (
                omega (arith, rest.0, length-drop n buffer, have),
                full_cons b (write_new (drop n buffer) cs).1 sound full rest.1,
                ap₂ (λ (l r : List ℕ). l ++ r) holds rest.2
                    ∙ sym (take_split n (write_new (drop n buffer) cs).0 buffer),
                rest.3,
                rest_done n (write_new (drop n buffer) cs).0 buffer (write_new (drop n buffer) cs).2
                    have rest.4,
              )
      ]
    ]
