-- ===== src/Signal/Process/Scan.antt =====
-- The search for the lowest waiting signal.
use zelda_os.Prelude.{
  ℕ, zero, suc, ◌+◌, ◌≤◌, ◌<◌, ◌≡◌, inl, inr, true, false, arith, ltb, ◌==◌, ltb→lt, ==_iff,
  Bool-cases,
}
use zelda_os.Signal.Table.{Entries}
use zelda_os.Signal.Process.{is_waiting, next_signaled}
use zelda_os.Signal.Sig

-- what a scan of `n` entries from `i` on answers
pub record Scanned (es : Entries) (i n j : ℕ) : Type 0 where
  pub from : i ≤ j
  pub to : j ≤ i + n
  pub skipped : (k : ℕ) → i ≤ k → k < j → is_waiting (es k) ≡ false
  pub hit : j < i + n → is_waiting (es j) ≡ true

pub next_signaled-Scanned : (es : Entries) (n i : ℕ) → Scanned es i n (next_signaled es n i)
unfolding next_signaled
next_signaled-Scanned es zero i = record {
  from = omega arith;
  to = omega arith;
  skipped = λ k p q. absurd (omega arith);
  hit = λ p. absurd (omega arith);
}
next_signaled-Scanned es (suc n) i = elim (Bool-cases (is_waiting (es i))) [
  | inl w ↦ rw w (record {
    from = omega arith;
    to = omega arith;
    skipped = λ k p q. absurd (omega arith);
    hit = λ p. w;
  })
  | inr w ↦ rw w (later w (next_signaled-Scanned es n (i + 1)))
]
  where
    later :
        is_waiting (es i) ≡ false
        → Scanned es (i + 1) n (next_signaled es n (i + 1))
        → Scanned es i (suc n) (next_signaled es n (i + 1))
    later w r = record {
      from = omega (arith, r.from);
      to = omega (arith, r.to);
      skipped = λ k p q. elim (Bool-cases (k == i)) [
        | inl e ↦ rw ((==_iff k i).0 e) w
        | inr ne ↦ r.skipped k (ground arith) q
      ];
      hit = λ p. r.hit (omega arith);
    }

-- `sig` is the lowest waiting signal of the table
pub record IsLowest (es : Entries) (sig : ℕ) : Type 0 where
  pub low : 0 < sig
  pub high : sig < Sig.max
  pub waiting : is_waiting (es sig) ≡ true
  pub lower : (k : ℕ) → 0 < k → k < sig → is_waiting (es k) ≡ false

-- A scan finds the first waiting entry, wherever it is.
pub next_signaled-eq :
    (es : Entries) (i n sig : ℕ)
    → i ≤ sig
    → sig < i + n
    → is_waiting (es sig) ≡ true
    → ((k : ℕ) → i ≤ k → k < sig → is_waiting (es k) ≡ false)
    → next_signaled es n i ≡ sig
next_signaled-eq es i n sig p q w below = decide (next_signaled-Scanned es n i)
  where
    decide : Scanned es i n (next_signaled es n i) → next_signaled es n i ≡ sig
    decide r = elim (Bool-cases (ltb (next_signaled es n i) sig)) [
      | inl lt ↦
          let early = below (next_signaled es n i) r.from (ltb→lt _ _ lt) in
          let hit = r.hit (omega (arith, ltb→lt _ _ lt)) in cc
      | inr ge ↦ elim (Bool-cases (ltb sig (next_signaled es n i))) [
        | inl gt ↦ let missed = r.skipped sig p (ltb→lt _ _ gt) in cc
        | inr le ↦ ground arith
      ]
    ]

-- A scan that finds nothing stops at its end.
pub next_signaled_none :
    (es : Entries) (i n : ℕ)
    → ((k : ℕ) → i ≤ k → k < i + n → is_waiting (es k) ≡ false)
    → next_signaled es n i ≡ i + n
next_signaled_none es i n quiet = decide (next_signaled-Scanned es n i)
  where
    decide : Scanned es i n (next_signaled es n i) → next_signaled es n i ≡ i + n
    decide r = elim (Bool-cases (ltb (next_signaled es n i) (i + n))) [
      | inl lt ↦
          let hit = r.hit (ltb→lt _ _ lt) in
          let no_hit = quiet (next_signaled es n i) r.from (ltb→lt _ _ lt) in cc
      | inr ge ↦ let end = r.to in ground arith
    ]
