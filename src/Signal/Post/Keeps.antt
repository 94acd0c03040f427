-- ===== src/Signal/Post/Keeps.antt =====
-- `signal_task` on a live task: it never panics, keeps the invariant and reports by the valid bit.
use zelda_os.Prelude.{
  ℕ, ◌<◌, ◌≡◌, refl, inl, inr, true, false, arith, if◌then◌else◌, lt→ltb, Bool-cases, Ends,
  Ends-bind,
}
use zelda_os.Status.{ok, err_not_supported}
use zelda_os.Task.{
  TaskState, zombie, running, interruptible, uninterruptible, exiting, Action, exit, ignore, stop,
  continue, user, SignalEntry, Task, transit_state, raw_task_wake_up,
}
use zelda_os.Signal.Table.{update}
use zelda_os.Signal.WellFormed.{IsWellFormed, is_immediate, is_live, EntryOk-update}
use zelda_os.Signal.Sig
use zelda_os.Signal.Post.{stop_task, continue_task, post, deliver, signal_task}

-- what a call must leave behind
abbrev Kept : Task → Type 0
Kept t = IsWellFormed t × (is_live t.state ≡ true)

stop_task-Kept : (t : Task) (s : TaskState) → t.state ≡ s → Kept t → Ends (stop_task t) Kept
unfolding stop_task transit_state
stop_task-Kept t zombie e (w, l) = absurd (ground arith)
stop_task-Kept t exiting e (w, l) = absurd (ground arith)
stop_task-Kept t running e (w, l) =
    simp e (record { stopped = ground arith; entries = w.entries; flagged = w.flagged }, refl)
stop_task-Kept t interruptible e (w, l) =
    simp e (record { stopped = ground arith; entries = w.entries; flagged = w.flagged }, refl)
stop_task-Kept t uninterruptible e (w, l) = simp e (w, refl)

-- restoring an active state from `non_stop_state`
resume-Kept :
    (t : Task) (n : TaskState)
    → t.state ≡ uninterruptible
    → t.non_stop_state ≡ n
    → Kept t
    → Ends (continue_task t) Kept
unfolding continue_task transit_state
resume-Kept t zombie e f (w, l) = absurd (ground (arith, w.stopped e))
resume-Kept t exiting e f (w, l) = absurd (ground (arith, w.stopped e))
resume-Kept t uninterruptible e f (w, l) = absurd (ground (arith, w.stopped e))
resume-Kept t running e f (w, l) =
    simp (e, f) (record { stopped = ground arith; entries = w.entries; flagged = w.flagged }, refl)
resume-Kept t interruptible e f (w, l) =
    simp (e, f) (record { stopped = ground arith; entries = w.entries; flagged = w.flagged }, refl)

continue_task-Kept : (t : Task) (s : TaskState) → t.state ≡ s → Kept t → Ends (continue_task t) Kept
unfolding continue_task
continue_task-Kept t zombie e (w, l) = absurd (ground arith)
continue_task-Kept t exiting e (w, l) = absurd (ground arith)
continue_task-Kept t running e (w, l) = simp e (w, refl)
continue_task-Kept t interruptible e (w, l) = simp e (w, refl)
continue_task-Kept t uninterruptible e k = resume-Kept t t.non_stop_state e refl k

-- waking a live task whose stopped state is remembered
raw_task_wake_up-Kept :
    (t : Task) (s : TaskState) → t.state ≡ s → Kept t → Ends (raw_task_wake_up t) Kept
unfolding raw_task_wake_up transit_state
raw_task_wake_up-Kept t zombie e (w, l) = absurd (ground arith)
raw_task_wake_up-Kept t exiting e (w, l) = absurd (ground arith)
raw_task_wake_up-Kept t running e (w, l) = simp e (w, refl)
raw_task_wake_up-Kept t interruptible e (w, l) =
    simp e (record { stopped = ground arith; entries = w.entries; flagged = w.flagged }, refl)
raw_task_wake_up-Kept t uninterruptible e (w, l) =
    simp (e, w.stopped e)
      (record { stopped = ground arith; entries = w.entries; flagged = w.flagged }, ground arith)

post-Kept :
    (t : Task) (sig : ℕ)
    → is_immediate (t.sig_entries sig).action ≡ false
    → (t.sig_entries sig).valid ≡ true
    → Kept t
    → Ends (post t sig) Kept
unfolding post
post-Kept t sig plain valid (w, l) = raw_task_wake_up-Kept marked t.state refl (
  record {
    stopped = w.stopped;
    entries =
        EntryOk-update t.sig_entries sig hit w.entries
          (λ i. absurd (ground arith), (w.entries sig).1, λ _. valid);
    flagged = λ i a b c. refl;
  },
  l,
)
  where
    hit : SignalEntry
    hit = record (t.sig_entries sig) { signaled = true }

    marked : Task
    marked = record t { sig_entries = update t.sig_entries sig hit; signal_pending = true }

deliver-Kept :
    (t : Task) (sig : ℕ) (a : Action)
    → (t.sig_entries sig).action ≡ a
    → (t.sig_entries sig).valid ≡ true
    → Kept t
    → Ends (deliver a t sig) Kept
unfolding deliver
deliver-Kept t sig stop e valid k = stop_task-Kept t t.state refl k
deliver-Kept t sig continue e valid k = continue_task-Kept t t.state refl k
deliver-Kept t sig exit e valid k = post-Kept t sig (rw e) valid k
deliver-Kept t sig ignore e valid k = post-Kept t sig (rw e) valid k
deliver-Kept t sig user e valid k = post-Kept t sig (rw e) valid k

-- Signalling a well-formed live task with a signal number in range never fails an ASSERT. The
-- task stays well formed and live; the answer is OK exactly if the signal is supported, and an
-- unsupported signal leaves the task as it was.
pub signal_task-IsWellFormed :
    (t : Task) (sig : ℕ)
    → 0 < sig
    → sig < Sig.max
    → IsWellFormed t
    → is_live t.state ≡ true
    → Ends (signal_task t sig) (λ (r, t').
      IsWellFormed t'
      × (is_live t'.state ≡ true)
      × (r ≡ (if (t.sig_entries sig).valid then ok else err_not_supported))
      × ((t.sig_entries sig).valid ≡ false → t' ≡ t))
unfolding signal_task
signal_task-IsWellFormed t sig lo hi w l = elim (Bool-cases (t.sig_entries sig).valid) [
  | inl valid ↦
      simp (lt→ltb 0 sig lo, lt→ltb sig Sig.max hi, valid)
        (Ends-bind (deliver (t.sig_entries sig).action t sig) _ Kept _
          (deliver-Kept t sig _ refl valid (w, l)) (λ t' (w', l'). (w', l', refl, λ e. cc)))
  | inr not_valid ↦ simp (lt→ltb 0 sig lo, lt→ltb sig Sig.max hi, not_valid) (w, l, refl, λ e. refl)
]
