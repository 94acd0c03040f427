-- ===== src/ByteRing/Contents.antt =====
-- The bytes that a ring holds, and what one round of each loop does to them.
use zelda_os.Prelude.{
  ℕ, zero, suc, ◌+◌, ◌-◌, ◌%◌, ◌≤◌, ◌<◌, ◌≡◌, refl, ap, ap₂, ◌∙◌, ◌≢◌, inl, inr, false, List, [],
  ◌∷◌, ◌++◌, arith, ltb, ◌==◌, if◌then◌else◌, ltb→lt, Bool-cases, length, get_or, set,
  get_or-set_self, get_or-set_ne,
}
use zelda_os.ByteRing.{Ring, ring_empty, ring_full, ring_length, store, advance}
use zelda_os.ByteRing.Valid.{IsValid}
use native.Mathlib.Nat.{mod-eq_of_lt, mod-eq-sub-mod}

-- a sum of two indices, reduced
mod_wrap : (a s : ℕ) → 0 < s → a < s + s → a % s ≡ (if ltb a s then a else a - s)
mod_wrap a s p h = elim (Bool-cases (ltb a s)) [
  | inl lt ↦ rw lt (mod-eq_of_lt (ltb→lt a s lt))
  | inr ge ↦
      let ok : s ≤ a = ground arith in
      let small : a - s < s = omega arith in rw ge (mod-eq-sub-mod ok ∙ mod-eq_of_lt small)
]

-- how far `j` is ahead of `i` on a circle of `s` slots
abbrev pub ahead : ℕ → ℕ → ℕ → ℕ
ahead s i j = (j + s - i) % s

module _ (s i j : ℕ) (ip : i < s) (jp : j < s) where
  pub ahead-zero : (i == j) ≡ (ahead s i j == 0)
  ahead-zero = let w = mod_wrap (j + s - i) s (omega arith) (omega arith) in ground arith

  pub ahead-left : (i == j) ≡ false → ahead s i j ≡ suc (ahead s ((i + 1) % s) j)
  ahead-left ne =
      let w = mod_wrap (j + s - i) s (omega arith) (omega arith) in
      let u = mod_wrap (i + 1) s (omega arith) (omega arith) in
      let k : (i + 1) % s < s = omega arith in
      let x = mod_wrap (j + s - (i + 1) % s) s (omega arith) (omega arith) in ground arith

  pub ahead-right : ((j + 1) % s == i) ≡ false → ahead s i ((j + 1) % s) ≡ suc (ahead s i j)
  ahead-right ne =
      let w = mod_wrap (j + s - i) s (omega arith) (omega arith) in
      let u = mod_wrap (j + 1) s (omega arith) (omega arith) in
      let k : (j + 1) % s < s = omega arith in
      let x = mod_wrap ((j + 1) % s + s - i) s (omega arith) (omega arith) in ground arith

  pub ahead-full : ((j + 1) % s == i) ≡ (ahead s i j + 1 == s)
  ahead-full =
      let w = mod_wrap (j + s - i) s (omega arith) (omega arith) in
      let u = mod_wrap (j + 1) s (omega arith) (omega arith) in ground arith

-- the bytes of `n` slots from `i` on
pub slots : (buffer : List ℕ) (s n i : ℕ) → List ℕ
slots b s zero i = []
slots b s (suc n) i = get_or b i 0 ∷ slots b s n ((i + 1) % s)

-- what the ring holds, oldest byte first
abbrev pub contents : Ring → List ℕ
contents r = slots r.buffer r.ring_size (ahead r.ring_size r.front r.rear) r.front

pub length-slots : (b : List ℕ) (s n i : ℕ) → length (slots b s n i) ≡ n
unfolding slots
length-slots b s zero i = refl
length-slots b s (suc n) i = ap suc (length-slots b s n ((i + 1) % s))

next_in : (s i : ℕ) → i < s → (i + 1) % s < s
next_in s i ip = omega arith

-- A slot ahead of a run is not in it.
slots-set :
    (b : List ℕ) (v s n i j : ℕ)
    → i < s
    → j < s
    → n ≤ ahead s i j
    → slots (set b j v) s n i ≡ slots b s n i
unfolding slots
slots-set b v s zero i j ip jp h = refl
slots-set b v s (suc n) i j ip jp h =
    let z = ahead-zero s i j ip jp in
    let ne : (i == j) ≡ false = ground arith in
    let step = ahead-left s i j ip jp ne in
    let apart : j ≢ i = λ e. ground arith in
    ap₂ ◌∷◌ (get_or-set_ne b j i v 0 apart)
      (slots-set b v s n ((i + 1) % s) j (next_in s i ip) jp (omega arith))

-- The run up to `j`, and the slot `j` itself.
slots-snoc :
    (b : List ℕ) (s n i j : ℕ)
    → i < s
    → j < s
    → n ≡ ahead s i j
    → slots b s (suc n) i ≡ slots b s n i ++ (get_or b j 0 ∷ [])
unfolding slots
slots-snoc b s zero i j ip jp h =
    let z = ahead-zero s i j ip jp in
    let same : i ≡ j = ground arith in ap (λ k. get_or b k 0 ∷ []) same
slots-snoc b s (suc n) i j ip jp h =
    let z = ahead-zero s i j ip jp in
    let ne : (i == j) ≡ false = ground arith in
    let step = ahead-left s i j ip jp ne in
    ap (λ r. get_or b i 0 ∷ r) (slots-snoc b s n ((i + 1) % s) j (next_in s i ip) jp (omega arith))

module _ (r : Ring) (v : IsValid r) where
  pub length-contents : length (contents r) ≡ ring_length r
  unfolding ring_length
  length-contents = length-slots r.buffer r.ring_size (ahead r.ring_size r.front r.rear) r.front

  -- `ring_empty` and `ring_full` compare indices; they say that there are no bytes, or as many as
  -- fit.
  pub ring_tests :
      (ring_empty r ≡ (length (contents r) == 0))
      × (ring_full r ≡ (length (contents r) + 1 == r.ring_size))
  unfolding ring_empty ring_full ring_length
  ring_tests = rw length-contents (
    ahead-zero r.ring_size r.front r.rear v.front_in v.rear_in,
    ahead-full r.ring_size r.front r.rear v.front_in v.rear_in,
  )

  -- One round of `write_ring` puts a byte behind the others.
  pub contents-store :
      (byte : ℕ) → ring_full r ≡ false → contents (store r byte) ≡ contents r ++ (byte ∷ [])
  unfolding ring_full
  contents-store byte open_slot =
      let bound : r.rear < length r.buffer = omega (arith, v.storage, v.rear_in) in
      rw (ahead-right r.ring_size r.front r.rear v.front_in v.rear_in open_slot) (
        slots-snoc (set r.buffer r.rear byte) r.ring_size (ahead r.ring_size r.front r.rear) r.front
          r.rear v.front_in v.rear_in refl
        ∙ ap₂ (λ a b. a ++ (b ∷ []))
            (slots-set r.buffer byte r.ring_size (ahead r.ring_size r.front r.rear) r.front r.rear
              v.front_in v.rear_in (omega arith))
            (get_or-set_self r.buffer r.rear byte 0 bound))

  -- One round of `read_ring` takes the oldest byte.
  pub contents-advance :
      ring_empty r ≡ false → contents r ≡ get_or r.buffer r.front 0 ∷ contents (advance r)
  unfolding ring_empty slots
  contents-advance some_byte =
      let e = ahead-left r.ring_size r.front r.rear v.front_in v.rear_in some_byte in
      ap (λ n. slots r.buffer r.ring_size n r.front) e
