-- ===== src/Signal/Process/Keeps.antt =====
-- `task_process_signal` keeps the invariant of a running task, and the pending flag is exact.
use zelda_os.Prelude.{
  ℕ, ◌+◌, ◌-◌, ◌<◌, ◌≡◌, refl, ◌≢◌, ◌↔◌, inl, inr, true, false, not, ◌&&◌, Option, none, some,
  arith, ltb, ◌==◌, ltb→lt, lt→ltb, ==_iff, Bool-cases, Ends,
}
use zelda_os.Task.{
  running, exiting, Action, exit, ignore, stop, continue, user, SignalEntry, Task, transit_state,
}
use zelda_os.Signal.Table.{Entries, update}
use zelda_os.Signal.WellFormed.{IsWellFormed, EntryOk, EntryOk-update}
use zelda_os.Signal.Process.{
  Context, Resumption, resume, yielded, is_waiting, next_signaled, prepare_signal_context, leave,
  may_process, unmark, act, take_signal, task_process_signal,
}
use zelda_os.Signal.Process.Scan.{Scanned, IsLowest, next_signaled-Scanned, next_signaled_none}
use zelda_os.Signal.Sig

-- Taking the lowest waiting signal clears that one entry, leaves the other entries alone, and
-- leaves the pending flag set exactly if another signal waits.
pub unmark-IsLowest :
    (t : Task) (sig : ℕ)
    → IsLowest t.sig_entries sig
    → t.signal_pending ≡ true
    → ((unmark t sig).sig_entries
        ≡ update t.sig_entries sig (record (t.sig_entries sig) { signaled = false }))
      × ((unmark t sig).signal_pending ≡ false
          ↔ ((k : ℕ) → 0 < k → k < Sig.max → k ≢ sig → is_waiting (t.sig_entries k) ≡ false))
unfolding unmark
unmark-IsLowest t sig l p = (refl, (there, back))
  where
    es : Entries
    es = update t.sig_entries sig (record (t.sig_entries sig) { signaled = false })

    scan : Scanned es (sig + 1) (28 - (sig + 1)) (next_signaled es (28 - (sig + 1)) (sig + 1))
    scan = next_signaled-Scanned es (28 - (sig + 1)) (sig + 1)

    there :
        (unmark t sig).signal_pending ≡ false
        → (k : ℕ) → 0 < k
        → k < Sig.max
        → k ≢ sig
        → is_waiting (t.sig_entries k) ≡ false
    there q k lo hi ne = elim (Bool-cases (ltb k sig)) [
      | inl lt ↦ l.lower k lo (ltb→lt k sig lt)
      | inr ge ↦
          let end : next_signaled es (28 - (sig + 1)) (sig + 1) ≡ 28 = ground arith in
          let off : (k == sig) ≡ false = ground arith in
          let quiet = scan.skipped k (ground arith) (rw end hi) in rw off at quiet
    ]

    back :
        ((k : ℕ) → 0 < k → k < Sig.max → k ≢ sig → is_waiting (t.sig_entries k) ≡ false)
        → (unmark t sig).signal_pending ≡ false
    back none_waits =
        let end : next_signaled es (28 - (sig + 1)) (sig + 1) ≡ sig + 1 + (28 - (sig + 1)) =
          next_signaled_none es (sig + 1) (28 - (sig + 1)) (λ k lo hi.
            let off : (k == sig) ≡ false = ground arith in
            rw off (none_waits k (omega arith) (omega (arith, l.high)) (omega arith))) in
        let hi = l.high in ground arith

-- a task that `task_process_signal` lets go: it runs on, or it is on its way out
abbrev pub Released : Resumption → Type 0
Released (resume (some t) esp tss c) = IsWellFormed t × (t.state ≡ running)
Released (resume none esp tss c) = ⊥
Released (yielded t) = IsWellFormed t × (t.state ≡ exiting)

leave-Released :
    (t : Task) (esp : ℕ) (c : Option Context)
    → IsWellFormed t
    → t.state ≡ running
    → Released (leave (some t) esp c)
unfolding leave
leave-Released t esp c w r = elim (Bool-cases t.signal_scheduled) [
  | inl yes_in ↦ simp yes_in (w, r)
  | inr not_in ↦ simp not_in (w, r)
]

unmark-IsWellFormed :
    (t : Task) (sig : ℕ) → IsLowest t.sig_entries sig → IsWellFormed t → IsWellFormed (unmark t sig)
unfolding unmark
unmark-IsWellFormed t sig l w = record {
  stopped = w.stopped;
  entries = EntryOk-update t.sig_entries sig cleared w.entries cleared_ok;
  flagged = flagged;
}
  where
    cleared : SignalEntry
    cleared = record (t.sig_entries sig) { signaled = false }

    cleared_ok : EntryOk cleared
    cleared_ok =
        let ok = w.entries sig in (λ i. (refl, (ok.0 i).1), ok.1, λ e. absurd (ground arith))

    waits : t.signal_pending ≡ true
    waits = w.flagged sig l.low l.high (ground (arith, l.waiting))

    flagged :
        (i : ℕ)
        → 0 < i
        → i < Sig.max
        → (update t.sig_entries sig cleared i).signaled ≡ true
        → (unmark t sig).signal_pending ≡ true
    flagged i lo hi s = elim (Bool-cases (i == sig)) [
      | inl at ↦ absurd (ground arith)
      | inr off ↦ elim (Bool-cases (unmark t sig).signal_pending) [
        | inl p ↦ p
        | inr p ↦
            let still = (unmark-IsLowest t sig l waits).1.0 p i lo hi (ground arith) in
            let here : (t.sig_entries i).signaled ≡ true = rw off at s in
            let valid = (w.entries i).2 here in absurd (ground arith)
      ]
    ]

module _ (return_address : ℕ) where
  act-Released :
      (a : Action) (t u : Task) (sig esp : ℕ)
      → IsWellFormed u
      → u.state ≡ running
      → u.privilege_level ≡ 3
      → IsLowest t.sig_entries sig
      → EntryOk (t.sig_entries sig)
      → (t.sig_entries sig).action ≡ a
      → (u.sig_entries sig).action ≡ a
      → (u.sig_entries sig).valid ≡ true
      → (u.sig_entries sig).user_entry ≡ (t.sig_entries sig).user_entry
      → Ends (act return_address a u sig esp) Released
  unfolding act transit_state prepare_signal_context
  act-Released stop t u sig esp w r p l ok e e' v h = absurd (ground (arith, l.waiting, ok.0))
  act-Released continue t u sig esp w r p l ok e e' v h = absurd (ground (arith, l.waiting, ok.0))
  act-Released ignore t u sig esp w r p l ok e e' v h = leave-Released u esp none w r
  act-Released exit t u sig esp w r p l ok e e' v h = simp r (
    record { stopped = λ q. absurd (ground arith); entries = w.entries; flagged = w.flagged },
    refl,
  )
  act-Released user t u sig esp w r p l ok e e' v h =
      let handler = ok.1 e in
      let entry : ((u.sig_entries sig).user_entry == 0) ≡ false = ground arith in
      simp (p, lt→ltb 0 sig l.low, lt→ltb sig Sig.max l.high, v, e', entry)
        (leave-Released _ esp _
          (record { stopped = w.stopped; entries = w.entries; flagged = w.flagged }) r)

  take_signal-Released :
      (t : Task) (sig esp : ℕ)
      → IsWellFormed t
      → t.state ≡ running
      → t.privilege_level ≡ 3
      → Scanned t.sig_entries 1 27 sig
      → Ends (take_signal return_address t sig esp) Released
  unfolding take_signal
  take_signal-Released t sig esp w r p s = elim (Bool-cases (sig == Sig.max)) [
    | inl at ↦
        let end : sig ≡ Sig.max = (==_iff sig Sig.max).0 at in
        simp at (
          leave-Released _ esp none
            (record {
              stopped = w.stopped;
              entries = w.entries;
              flagged = λ i lo hi h.
                  let quiet = s.skipped i lo (omega arith) in
                  let valid = (w.entries i).2 h in absurd (ground arith);
            })
            r)
    | inr off ↦
        let l : IsLowest t.sig_entries sig = record {
          low = omega (arith, s.from);
          high = let hi = s.to in ground arith;
          waiting = s.hit (let hi = s.to in ground arith);
          lower = λ k lo hi. s.skipped k lo hi;
        } in
        let self : (sig == sig) ≡ true = (==_iff sig sig).1 refl in
        let signaled : (t.sig_entries sig).signaled ≡ true = ground (arith, l.waiting) in
        let valid : (t.sig_entries sig).valid ≡ true = ground (arith, l.waiting) in
        simp (off, signaled)
          (unfold unmark in
            act-Released (t.sig_entries sig).action t (unmark t sig) sig esp
              (unmark-IsWellFormed t sig l w) r p l (w.entries sig) refl (rw self) (rw self valid)
              (rw self))
  ]

  -- On the way out of an interrupt a well-formed running task never fails an ASSERT of the signal
  -- code: it goes on running, in its program or in a handler, or it becomes EXITING and yields,
  -- and it is well formed in either case.
  pub task_process_signal-Released :
      (t : Task) (esp : ℕ)
      → IsWellFormed t
      → t.state ≡ running
      → Ends (task_process_signal return_address (some t) esp) Released
  unfolding task_process_signal may_process
  task_process_signal-Released t esp w r =
      let alive : may_process t.state ≡ true = rw r in
      elim (Bool-cases ((t.privilege_level == 3) && (t.interrupt_depth == 1))) [
        | inr early ↦ simp early (leave-Released t esp none w r)
        | inl inside ↦ elim (Bool-cases (not t.signal_scheduled && t.signal_pending)) [
          | inr idle ↦ simp (inside, alive, idle) (leave-Released t esp none w r)
          | inl due ↦
              simp (inside, alive, due)
                (take_signal-Released t _ esp w r (ground arith)
                  (next_signaled-Scanned t.sig_entries 27 1))
        ]
      ]
