-- ===== src/MemBlocks/Seek.antt =====
-- Where an offset lies in the blocks of a file.
use zelda_os.Prelude.{
  ℕ, ◌+◌, ◌-◌, ◌≤◌, ◌<◌, min, ◌≡◌, refl, ap, ◌∙◌, ◌⊎◌, inl, inr, List, [], ◌∷◌, ◌++◌, append-nil,
  arith, ◌==◌, Bool-cases, length, length-append,
}
use zelda_os.MemBlocks.{Block, block_avail_size}
use zelda_os.MemBlocks.Random.{seek}
use zelda_os.MemBlocks.Bytes.{used, bytes, IsSound, IsPacked, length-used}
use zelda_os.MemBlocks.Tail.{AreFull}

-- a place in the blocks from the current one on
abbrev pub IsPlace : List Block → ℕ → Type 0
IsPlace [] i = i ≡ 0
IsPlace (b ∷ bs) i = i ≤ b.nr_used

pub last_or_full :
    (b : Block) (bs : List Block)
    → IsPacked (b ∷ bs)
    → IsSound b × ((b.nr_used ≡ block_avail_size) ⊎ (bs ≡ [])) × IsPacked bs
last_or_full b [] p = (p, inr refl, tt)
last_or_full b (c ∷ bs) p = (p.0, inl p.1, p.2)

-- The offset is found: full blocks before it, and its place in the block it is in.
abbrev pub Found : List Block → ℕ → List Block × List Block × ℕ × ℕ → Type 0
Found bs off (before, current, iptr, left) =
    (left ≡ 0)
    × (bs ≡ before ++ current)
    × AreFull before
    × IsPacked current
    × IsPlace current iptr
    × (off ≡ length (bytes before) + iptr)

module _ (limit : Block → ℕ)
    (bounds : (b : Block) → IsSound b → (b.nr_used ≤ limit b) × (limit b ≤ block_avail_size)) where
  past_full :
      (b : Block) (bs : List Block) (off : ℕ)
      → IsSound b
      → (b.nr_used ≡ block_avail_size) ⊎ (bs ≡ [])
      → off ≤ length (bytes (b ∷ bs))
      → limit b < off
      → b.nr_used ≡ block_avail_size
  past_full b bs off sound (inl e) h deep = e
  past_full b bs off sound (inr e) h deep =
      let all : length (bytes (b ∷ bs)) ≡ length (used b) =
        ap (λ (r : List Block). length (bytes (b ∷ r))) e ∙ ap length (append-nil (used b)) in
      absurd (omega (arith, h, all, length-used b sound, (bounds b sound).0, deep))

  place_of :
      (b : Block) (bs : List Block) (off : ℕ)
      → IsSound b
      → (b.nr_used ≡ block_avail_size) ⊎ (bs ≡ [])
      → off ≤ length (bytes (b ∷ bs))
      → off ≤ limit b
      → off ≤ b.nr_used
  place_of b bs off sound (inl e) h near = omega (arith, e, near, (bounds b sound).1)
  place_of b bs off sound (inr e) h near =
      let all : length (bytes (b ∷ bs)) ≡ length (used b) =
        ap (λ (r : List Block). length (bytes (b ∷ r))) e ∙ ap length (append-nil (used b)) in
      omega (arith, h, all, length-used b sound)

  pub seek-Found :
      (bs : List Block) (off : ℕ)
      → IsPacked bs
      → off ≤ length (bytes bs)
      → Found bs off (seek limit bs off)
  unfolding seek
  seek-Found [] off packed h = (omega (arith, h), refl, tt, tt, refl, omega (arith, h))
  seek-Found (b ∷ bs) off packed h =
      let (sound, ends, packed') = last_or_full b bs packed in
      let ignored : ℕ = min off (limit b) in
      let len = length-append (used b) (bytes bs) in
      let k = length-used b sound in
      let (low, high) = bounds b sound in
      let next : off - ignored ≤ length (bytes bs) = omega (arith, h, len, k, low) in
      let rest = seek-Found bs (off - ignored) packed' next in
      let s = seek limit bs (off - ignored) in
      elim (Bool-cases (off - ignored == 0)) [
        | inl here ↦
            let near : off ≤ limit b = ground arith in
            let place : min off (limit b) ≤ b.nr_used =
              omega (arith, place_of b bs off sound ends h near) in
            rw here (refl, refl, tt, packed, place, omega (arith, near))
        | inr further ↦
            let deep : limit b < off = ground arith in
            let full : b.nr_used ≡ block_avail_size = past_full b bs off sound ends h deep in
            rw further (
              rest.0,
              ap (λ (r : List Block). b ∷ r) rest.1,
              ((sound, full), rest.2),
              rest.3,
              rest.4,
              omega (arith, deep, full, low, high, k, rest.5, length-append (used b) (bytes s.0)),
            )
      ]

pub by_used : (b : Block) → IsSound b → (b.nr_used ≤ b.nr_used) × (b.nr_used ≤ block_avail_size)
by_used b sound = (omega arith, sound.1)

pub by_size :
    (b : Block) → IsSound b → (b.nr_used ≤ block_avail_size) × (block_avail_size ≤ block_avail_size)
by_size b sound = (sound.1, omega arith)
