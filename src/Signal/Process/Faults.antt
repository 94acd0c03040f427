-- ===== src/Signal/Process/Faults.antt =====
-- Two ways in which signals bring the kernel down: a failed ASSERT on the way back to user space.
use zelda_os.Prelude.{
  ℕ, ◌<◌, ◌≡◌, refl, ap, ◌∙◌, true, false, some, arith, ◌==◌, lt→ltb, ==_iff, panic, ◌>>=◌,
}
use zelda_os.Status.{ok}
use zelda_os.Task.{running, uninterruptible, exit, stop, user, Task, transit_state}
use zelda_os.Signal.Table.{update}
use zelda_os.Signal.WellFormed.{IsWellFormed}
use zelda_os.Signal.Post.{signal_task}
use zelda_os.Signal.Post.Stop.{
  Acts, signal_task-deliver, marked, posted_while_stopped, signal_task-stop, posted_while_running,
}
use zelda_os.Signal.Process.{prepare_signal_context, may_process, unmark, act, task_process_signal}
use zelda_os.Signal.Process.Scan.{IsLowest}
use zelda_os.Signal.Process.Picks.{IsDue, IsNext, task_process-act}
use zelda_os.Signal.Sig
use zelda_os.Signal.Handler.{call_sys_signal}
use zelda_os.Signal.Handler.Effect.{call_sys_signal-ok}

module _ (return_address : ℕ) where
  stopped-exit-panic :
      (t : Task) (sig esp : ℕ)
      → IsDue t
      → t.state ≡ uninterruptible
      → IsNext t sig exit
      → task_process_signal return_address (some t) esp ≡ panic
  unfolding act transit_state may_process unmark
  stopped-exit-panic t sig esp d r n =
      rw (task_process-act return_address t sig esp d (rw r) n.lowest, n.action) (simp r)

  IsLowest-when_alone :
      (t : Task) (sig : ℕ)
      → IsWellFormed t
      → t.signal_pending ≡ false
      → 0 < sig
      → sig < Sig.max
      → (t.sig_entries sig).valid ≡ true
      → IsLowest (marked t sig) sig
  IsLowest-when_alone t sig w idle lo hi valid = record {
    low = lo;
    high = hi;
    waiting = let self : (sig == sig) ≡ true = (==_iff sig sig).1 refl in rw self (rw valid);
    lower = λ k a b.
        let off : (k == sig) ≡ false = ground arith in
        let flag = w.flagged k a (omega arith) in rw off (ground arith);
  }

  -- A running task that is stopped, and is sent a fatal signal before it has left the CPU, panics
  -- the kernel on its way back to user space: the transition from UNINTERRUPTIBLE to EXITING is not
  -- in the table.
  pub stop-exit-panic :
      (t : Task) (halt fatal esp : ℕ)
      → IsWellFormed t
      → t.state ≡ running
      → t.privilege_level ≡ 3
      → t.interrupt_depth ≡ 1
      → t.signal_scheduled ≡ false
      → t.signal_pending ≡ false
      → Acts t halt stop
      → Acts t fatal exit
      → (signal_task t halt >>= λ (_, t₁).
          signal_task t₁ fatal >>= λ (_, t₂). task_process_signal return_address (some t₂) esp)
        ≡ panic
  stop-exit-panic t halt fatal esp w run level depth outside idle ha hf =
      rw (signal_task-stop t halt ha (rw run)) (
        rw
          (
            signal_task-deliver held fatal exit still,
            posted_while_stopped held fatal exit refl refl (rw run),
          )
          (stopped-exit-panic told fatal esp due refl next))
    where
      held : Task
      held = record t { state = uninterruptible; non_stop_state = t.state }

      told : Task
      told = record held {
        non_stop_state = running;
        signal_pending = true;
        sig_entries = marked t fatal;
      }

      still : Acts held fatal exit
      still = record { low = hf.low; high = hf.high; valid = hf.valid; action = hf.action }

      due : IsDue told
      due = record { user_level = level; outermost = depth; outside = outside; flagged = refl }

      next : IsNext told fatal exit
      next = record {
        lowest = IsLowest-when_alone t fatal w idle hf.low hf.high hf.valid;
        action =
            let self : (fatal == fatal) ≡ true = (==_iff fatal fatal).1 refl in rw self hf.action;
      }

  -- `call_sys_signal` accepts a null handler; the signal that it is installed for then panics the
  -- kernel when it is taken.
  pub null_handler-panic :
      (t : Task) (sig esp : ℕ)
      → IsWellFormed t
      → t.state ≡ running
      → t.privilege_level ≡ 3
      → t.interrupt_depth ≡ 1
      → t.signal_scheduled ≡ false
      → t.signal_pending ≡ false
      → 0 < sig
      → sig < Sig.max
      → (t.sig_entries sig).valid ≡ true
      → (t.sig_entries sig).overridable ≡ true
      → ((call_sys_signal t sig 0).0 ≡ ok)
        × ((signal_task (call_sys_signal t sig 0).1 sig >>= λ (_, t').
              task_process_signal return_address (some t') esp)
            ≡ panic)
  unfolding act prepare_signal_context may_process unmark
  null_handler-panic t sig esp w run level depth outside idle lo hi valid over =
      rw (call_sys_signal-ok t sig 0 lo hi valid over) (
        refl,
        rw (signal_task-deliver u sig user acts, posted_while_running u sig user refl run)
            (task_process-act return_address v sig esp due (rw run) lowest
              ∙ ap (λ a. act return_address a (unmark v sig) sig esp) now_user
              ∙ stuck),
      )
    where
      self : (sig == sig) ≡ true
      self = (==_iff sig sig).1 refl

      u : Task
      u = record t {
        sig_entries =
            update t.sig_entries sig (record (t.sig_entries sig) { action = user; user_entry = 0 });
      }

      v : Task
      v = record u { signal_pending = true; sig_entries = marked u sig }

      acts : Acts u sig user
      acts = record { low = lo; high = hi; valid = rw self valid; action = rw self }

      due : IsDue v
      due = record { user_level = level; outermost = depth; outside = outside; flagged = refl }

      lowest : IsLowest v.sig_entries sig
      lowest = record {
        low = lo;
        high = hi;
        waiting = rw self (rw valid);
        lower = λ k a b.
            let off : (k == sig) ≡ false = ground arith in
            let flag = w.flagged k a (omega arith) in rw off (ground arith);
      }

      now_user : (v.sig_entries sig).action ≡ user
      now_user = rw self

      stuck : act return_address user (unmark v sig) sig esp ≡ panic
      stuck = simp (level, lt→ltb 0 sig lo, lt→ltb sig Sig.max hi, self, valid)
