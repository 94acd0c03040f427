-- ===== src/Signal/Post.antt =====
-- `signal_task`: stop and continue act at once, any other signal is recorded and wakes the task.
pub mod Keeps
pub mod Stop
pub mod Disposition
use zelda_os.Prelude.{
  ℕ, Bool, true, false, not, ◌&&◌, ltb, if◌then◌else◌, Outcome, done, ◌>>=◌, ◌>>◌, ensure,
}
use zelda_os.Signal.Table.{update}
use zelda_os.Signal.Sig
use zelda_os.Status.{Status, ok, err_not_supported}
use zelda_os.Task.{
  TaskState, zombie, uninterruptible, Action, stop, continue, Task, is_active, transit_state,
  raw_task_wake_up,
}

-- the two cases that `signal_task` handles before it posts
pub stop_task : Task → Outcome Task
stop_task t =
    if is_active t.state
    then transit_state (record t { non_stop_state = t.state }) uninterruptible
    else done t

is_stopped : TaskState → Bool
is_stopped uninterruptible = true
is_stopped _ = false

pub continue_task : Task → Outcome Task
unfolding is_stopped
continue_task t =
    if is_stopped t.state
    then (do t' ← transit_state t t.non_stop_state; done (record t' { non_stop_state = zombie }))
    else done t

pub post : Task → ℕ → Outcome Task
post t sig =
    let es = update t.sig_entries sig (record (t.sig_entries sig) { signaled = true }) in
    raw_task_wake_up (record t { sig_entries = es; signal_pending = true })

pub deliver : Action → Task → ℕ → Outcome Task
unfolding stop_task continue_task post
deliver stop t sig = stop_task t
deliver continue t sig = continue_task t
deliver _ t sig = post t sig

pub signal_task : Task → ℕ → Outcome (Status × Task)
unfolding deliver
signal_task t sig = do
  ensure (ltb 0 sig && ltb sig Sig.max)
  if not (t.sig_entries sig).valid
      then done (err_not_supported, t)
      else (do t' ← deliver (t.sig_entries sig).action t sig; done (ok, t'))
