-- ===== src/Signal/Process/Picks.antt =====
-- Which signal `task_process_signal` takes, and what becomes of the task.
use zelda_os.Prelude.{
  ℕ, ◌+◌, ◌-◌, ◌%◌, ◌^◌, ◌≡◌, refl, ◌≢◌, true, false, none, some, arith, ◌==◌, lt→ltb, ==_iff, done,
}
use zelda_os.Task.{running, exiting, Action, exit, ignore, user, Task, transit_state}
use zelda_os.Signal.Process.{
  resume, yielded, next_signaled, signal_context, prepare_signal_context, leave, may_process,
  unmark, act, task_process_signal,
}
use zelda_os.Signal.Process.Scan.{IsLowest, next_signaled-eq}
use zelda_os.Signal.Sig

-- a user task on its way out of the outermost interrupt, outside a handler, with a signal flagged
pub record IsDue (t : Task) : Type 0 where
  pub user_level : t.privilege_level ≡ 3
  pub outermost : t.interrupt_depth ≡ 1
  pub outside : t.signal_scheduled ≡ false
  pub flagged : t.signal_pending ≡ true

-- `sig` is the lowest waiting signal of `t`, and its action is `a`
pub record IsNext (t : Task) (sig : ℕ) (a : Action) : Type 0 where
  pub lowest : IsLowest t.sig_entries sig
  pub action : (t.sig_entries sig).action ≡ a

module _ (return_address : ℕ) where
  -- the whole function comes down to the switch on that signal's action
  pub task_process-act :
      (t : Task) (sig esp : ℕ)
      → IsDue t
      → may_process t.state ≡ true
      → IsLowest t.sig_entries sig
      → task_process_signal return_address (some t) esp
        ≡ act return_address (t.sig_entries sig).action (unmark t sig) sig esp
  unfolding task_process_signal
  task_process-act t sig esp d alive l =
      let found : next_signaled t.sig_entries 27 1 ≡ sig =
        next_signaled-eq t.sig_entries 1 27 sig l.low (omega (arith, l.high)) l.waiting l.lower in
      let below : (sig == Sig.max) ≡ false = ground (arith, l.high) in
      let set : (t.sig_entries sig).signaled ≡ true = ground (arith, l.waiting) in
      simp (d.user_level, d.outermost, alive, d.outside, d.flagged, found, below, set)

  -- An ignored signal is cleared and the task resumes where it was interrupted.
  pub task_process_signal-ignore :
      (t : Task) (sig esp : ℕ)
      → IsDue t
      → may_process t.state ≡ true
      → IsNext t sig ignore
      → task_process_signal return_address (some t) esp
        ≡ done (resume (some (unmark t sig)) esp none none)
  unfolding act leave unmark
  task_process_signal-ignore t sig esp d alive n =
      rw (task_process-act t sig esp d alive n.lowest, n.action, d.outside)

  -- A fatal signal takes a running task to EXITING, and it yields the CPU for good.
  pub task_process_signal-exit :
      (t : Task) (sig esp : ℕ)
      → IsDue t
      → t.state ≡ running
      → IsNext t sig exit
      → task_process_signal return_address (some t) esp
        ≡ done (yielded (record (unmark t sig) { state = exiting }))
  unfolding act transit_state may_process unmark
  task_process_signal-exit t sig esp d r n =
      rw (task_process-act t sig esp d (simp r) n.lowest, n.action) (simp r)

  -- A caught signal is cleared, and the task resumes in its handler, on the signal stack of the
  -- kernel, with the signal number as the handler's argument.
  pub task_process_signal-user :
      (t : Task) (sig esp : ℕ)
      → IsDue t
      → may_process t.state ≡ true
      → IsNext t sig user
      → (t.sig_entries sig).user_entry ≢ 0
      → let top : ℕ = (t.signaled_level0_stack_top + 2 ^ 32 - 72) % 2 ^ 32 in
        task_process_signal return_address (some t) esp
        ≡ done (
            resume
              (some (record (unmark t sig) { signaled_cpu = top; signal_scheduled = true }))
              top
              (some t.signaled_level0_stack_top)
              (some (signal_context return_address sig (t.sig_entries sig).user_entry)))
  unfolding act leave unmark prepare_signal_context
  task_process_signal-user t sig esp d alive n handler =
      let l = n.lowest in
      let valid : (t.sig_entries sig).valid ≡ true = ground (arith, l.waiting) in
      let entry : ((t.sig_entries sig).user_entry == 0) ≡ false = ground arith in
      let self : (sig == sig) ≡ true = (==_iff sig sig).1 refl in
      rw (task_process-act t sig esp d alive l, n.action)
        (simp (d.user_level, lt→ltb 0 sig l.low, lt→ltb sig Sig.max l.high, self, valid, entry))
