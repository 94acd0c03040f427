-- ===== src/Signal/Handler/Effect.antt =====
-- What `call_sys_signal` changes.
use zelda_os.Prelude.{
  ℕ, ◌^◌, ◌<◌, ◌≡◌, ◌≢◌, inl, inr, true, false, not, ◌||◌, arith, leb, ◌==◌, Bool-cases,
}
use zelda_os.Status.{ok}
use zelda_os.Task.{user, SignalEntry, Task}
use zelda_os.Signal.Table.{update}
use zelda_os.Signal.WellFormed.{IsWellFormed, EntryOk, EntryOk-update}
use zelda_os.Signal.Handler.{call_sys_signal}
use zelda_os.Signal.Sig

-- For a supported and overridable signal the call installs the handler.
pub call_sys_signal-ok :
    (t : Task) (sig handler : ℕ)
    → 0 < sig
    → sig < Sig.max
    → (t.sig_entries sig).valid ≡ true
    → (t.sig_entries sig).overridable ≡ true
    → call_sys_signal t sig handler ≡ (
      ok,
      record t {
        sig_entries =
            update t.sig_entries sig
              (record (t.sig_entries sig) { action = user; user_entry = handler });
      },
    )
unfolding call_sys_signal
call_sys_signal-ok t sig handler lo hi valid over =
    let range : (((sig == 0) || leb (2 ^ 31) sig) || leb Sig.max sig) ≡ false = ground arith in
    simp (range, valid, over)

-- The call keeps the invariant if the handler's address is not null.
pub call_sys_signal-IsWellFormed :
    (t : Task) (sig handler : ℕ)
    → handler ≢ 0
    → IsWellFormed t
    → IsWellFormed (call_sys_signal t sig handler).1
unfolding call_sys_signal
call_sys_signal-IsWellFormed t sig handler some_handler w =
    elim (Bool-cases (((sig == 0) || leb (2 ^ 31) sig) || leb Sig.max sig)) [
      | inl out ↦ simp out w
      | inr within ↦
          elim (Bool-cases (not (t.sig_entries sig).valid || not (t.sig_entries sig).overridable)) [
            | inl refused ↦ simp (within, refused) w
            | inr open_to ↦
                simp (within, open_to)
                  (record {
                    stopped = w.stopped;
                    entries =
                        EntryOk-update t.sig_entries sig installed w.entries
                          (installed_ok (ground arith));
                    flagged = λ i lo hi h. elim (Bool-cases (i == sig)) [
                      | inl at ↦ w.flagged sig (ground arith) (ground arith) (rw at at h)
                      | inr off ↦ w.flagged i lo hi (rw off at h)
                    ];
                  })
          ]
    ]
  where
    installed : SignalEntry
    installed = record (t.sig_entries sig) { action = user; user_entry = handler }

    installed_ok : (t.sig_entries sig).overridable ≡ true → EntryOk installed
    installed_ok over = (λ i. absurd (ground arith), λ e. some_handler, (w.entries sig).2)

-- The call never touches a signal that is not overridable, such as SIGKILL or SIGSTOP.
pub call_sys_signal-fixed :
    (t : Task) (sig handler k : ℕ)
    → (t.sig_entries k).overridable ≡ false
    → (call_sys_signal t sig handler).1.sig_entries k ≡ t.sig_entries k
unfolding call_sys_signal
call_sys_signal-fixed t sig handler k fixed = ground arith
