-- ===== src/Signal/Process/Disposition.antt =====
-- Taking a signal changes no disposition.
use zelda_os.Prelude.{ℕ, ◌≡◌, Option, some, arith, done}
use zelda_os.Task.{Action, exit, ignore, stop, continue, user, Task, transit_state}
use zelda_os.Signal.Post.Disposition.{SameDisposition}
use zelda_os.Signal.Process.{
  Context, resume, next_signaled, prepare_signal_context, leave, unmark, act, take_signal,
  task_process_signal, return_from_pl3_signal_context,
}

module _ (return_address : ℕ) where
  leave-table :
      (t u : Task) (esp e : ℕ) (tss : Option ℕ) (c d : Option Context)
      → leave (some t) esp c ≡ resume (some u) e tss d
      → u.sig_entries ≡ t.sig_entries
  unfolding leave
  leave-table t u esp e tss c d h = ground arith

  act-table :
      (a : Action) (t u : Task) (sig esp e : ℕ) (tss : Option ℕ) (d : Option Context)
      → act return_address a t sig esp ≡ done (resume (some u) e tss d)
      → u.sig_entries ≡ t.sig_entries
  unfolding act leave prepare_signal_context transit_state
  act-table stop t u sig esp e tss d h = cc
  act-table continue t u sig esp e tss d h = cc
  act-table ignore t u sig esp e tss d h = ground arith
  act-table exit t u sig esp e tss d h = ground arith
  act-table user t u sig esp e tss d h = ground arith

  -- A task that resumes after `task_process_signal` has all the dispositions it had before.
  pub task_process_signal-SameDisposition :
      (t u : Task) (esp k e : ℕ) (tss : Option ℕ) (d : Option Context)
      → task_process_signal return_address (some t) esp ≡ done (resume (some u) e tss d)
      → SameDisposition (t.sig_entries k) (u.sig_entries k)
  unfolding task_process_signal take_signal leave unmark
  task_process_signal-SameDisposition t u esp k e tss d h = ground (
    arith,
    act-table (t.sig_entries (next_signaled t.sig_entries 27 1)).action
        (unmark t (next_signaled t.sig_entries 27 1)) u (next_signaled t.sig_entries 27 1) esp e tss
        d,
  )

pub handler_return-table :
    (t u : Task) (esp e s : ℕ)
    → return_from_pl3_signal_context t esp ≡ done (u, e, s)
    → u.sig_entries ≡ t.sig_entries
unfolding return_from_pl3_signal_context
handler_return-table t u esp e s h = ground arith
