-- ===== src/Signal/Post/Disposition.antt =====
-- Posting a signal changes no disposition.
use zelda_os.Prelude.{ℕ, ◌≡◌, refl, arith, done}
use zelda_os.Status.{Status}
use zelda_os.Task.{
  TaskState, Action, exit, ignore, stop, continue, user, SignalEntry, Task, transit_state,
  raw_task_wake_up,
}
use zelda_os.Signal.Post.{deliver, signal_task}

-- two entries with the same disposition: they may differ in the waiting bit and the handler
pub record SameDisposition (d e : SignalEntry) : Type 0 where
  pub valid : e.valid ≡ d.valid
  pub overridable : e.overridable ≡ d.overridable
  pub action : e.action ≡ d.action

pub SameDisposition-refl : (e : SignalEntry) → SameDisposition e e
SameDisposition-refl e = record { valid = refl; overridable = refl; action = refl }

wake-table :
    (t u : Task) (s : TaskState)
    → t.state ≡ s
    → raw_task_wake_up t ≡ done u
    → u.sig_entries ≡ t.sig_entries
unfolding raw_task_wake_up transit_state
wake-table t u s e h = ground arith

deliver-SameDisposition :
    (a : Action) (t u : Task) (sig k : ℕ)
    → deliver a t sig ≡ done u
    → SameDisposition (t.sig_entries k) (u.sig_entries k)
unfolding deliver transit_state
deliver-SameDisposition stop t u sig k h = ground arith
deliver-SameDisposition continue t u sig k h = ground arith
deliver-SameDisposition exit t u sig k h = ground (arith, wake-table _ u t.state refl h)
deliver-SameDisposition ignore t u sig k h = ground (arith, wake-table _ u t.state refl h)
deliver-SameDisposition user t u sig k h = ground (arith, wake-table _ u t.state refl h)

-- `signal_task` leaves every disposition as it was, also that of the signal posted.
pub signal_task-SameDisposition :
    (t u : Task) (sig k : ℕ) (r : Status)
    → signal_task t sig ≡ done (r, u)
    → SameDisposition (t.sig_entries k) (u.sig_entries k)
unfolding signal_task
signal_task-SameDisposition t u sig k r h =
    ground (arith, deliver-SameDisposition (t.sig_entries sig).action t u sig k)
