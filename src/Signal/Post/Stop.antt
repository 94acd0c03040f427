-- ===== src/Signal/Post/Stop.antt =====
-- Stopping a task and letting it go on.
use zelda_os.Prelude.{
  ℕ, ◌<◌, ◌≡◌, refl, sym, ap, ◌∙◌, inl, inr, true, false, arith, ◌==◌, lt→ltb, ==_iff, Bool-cases,
  done, ◌>>=◌,
}
use zelda_os.Status.{ok}
use zelda_os.Task.{
  TaskState, zombie, running, interruptible, uninterruptible, exiting, Action, exit, ignore, stop,
  continue, user, Task, transit_state, is_active, raw_task_wake_up,
}
use zelda_os.Signal.Table.{Entries, update}
use zelda_os.Signal.WellFormed.{is_immediate}
use zelda_os.Signal.Sig
use zelda_os.Signal.Post.{stop_task, continue_task, deliver, signal_task}

-- a signal in range whose entry is valid with the given action
pub record Acts (t : Task) (sig : ℕ) (a : Action) : Type 0 where
  pub low : 0 < sig
  pub high : sig < Sig.max
  pub valid : (t.sig_entries sig).valid ≡ true
  pub action : (t.sig_entries sig).action ≡ a

pub signal_task-deliver :
    (t : Task) (sig : ℕ) (a : Action)
    → Acts t sig a
    → signal_task t sig ≡ (deliver a t sig >>= λ t'. done (ok, t'))
unfolding signal_task
signal_task-deliver t sig a h =
    simp (lt→ltb 0 sig h.low, lt→ltb sig Sig.max h.high, h.valid, h.action)

pub stopped_from :
    (t : Task) (s : TaskState)
    → t.state ≡ s
    → is_active s ≡ true
    → stop_task t ≡ done (record t { state = uninterruptible; non_stop_state = s })
unfolding stop_task transit_state
stopped_from t zombie e a = cc
stopped_from t exiting e a = cc
stopped_from t uninterruptible e a = cc
stopped_from t running e a = simp e
stopped_from t interruptible e a = simp e

continued_from :
    (t : Task) (s : TaskState)
    → t.state ≡ uninterruptible
    → t.non_stop_state ≡ s
    → is_active s ≡ true
    → continue_task t ≡ done (record t { state = s; non_stop_state = zombie })
unfolding continue_task transit_state
continued_from t zombie e f a = cc
continued_from t exiting e f a = cc
continued_from t uninterruptible e f a = cc
continued_from t running e f a = simp (e, f)
continued_from t interruptible e f a = simp (e, f)

-- A stop signal and then a continue signal put a running or interruptible task back into the state
-- that it was stopped in; only `non_stop_state` is left at ZOMBIE.
pub signal_task-stop-continue :
    (t : Task) (a b : ℕ)
    → Acts t a stop
    → Acts t b continue
    → is_active t.state ≡ true
    → (signal_task t a >>= λ (_, t'). signal_task t' b)
      ≡ done (ok, record t { non_stop_state = zombie })
unfolding deliver
signal_task-stop-continue t a b ha hb active =
    rw (signal_task-deliver t a stop ha, stopped_from t t.state refl active)
      (rw (signal_task-deliver held b continue still, continued_from held t.state refl refl active))
  where
    held : Task
    held = record t { state = uninterruptible; non_stop_state = t.state }

    still : Acts held b continue
    still = record { low = hb.low; high = hb.high; valid = hb.valid; action = hb.action }

abbrev pub marked : Task → ℕ → Entries
marked t sig = update t.sig_entries sig (record (t.sig_entries sig) { signaled = true })

pub posted_while_stopped :
    (t : Task) (sig : ℕ) (act : Action)
    → is_immediate act ≡ false
    → t.state ≡ uninterruptible
    → is_active t.non_stop_state ≡ true
    → deliver act t sig
      ≡ done
          (record t { non_stop_state = running; signal_pending = true; sig_entries = marked t sig })
unfolding deliver raw_task_wake_up
posted_while_stopped t sig stop plain e a = cc
posted_while_stopped t sig continue plain e a = cc
posted_while_stopped t sig exit plain e a = simp (e, a)
posted_while_stopped t sig ignore plain e a = simp (e, a)
posted_while_stopped t sig user plain e a = simp (e, a)

-- A signal that reaches a stopped task is recorded, and does not run the task: the task stays
-- stopped until the continue signal, and is then RUNNING even if it was blocked when it was
-- stopped, with the signal pending.
pub signal_task-stop-post-continue :
    (t : Task) (a sig b : ℕ) (act : Action)
    → is_immediate act ≡ false
    → Acts t a stop
    → Acts t sig act
    → Acts t b continue
    → is_active t.state ≡ true
    → (signal_task t a >>= λ (_, t₁). signal_task t₁ sig >>= λ (_, t₂). signal_task t₂ b)
      ≡ done (
        ok,
        record t {
          state = running;
          non_stop_state = zombie;
          signal_pending = true;
          sig_entries = marked t sig;
        },
      )
unfolding deliver
signal_task-stop-post-continue t a sig b act plain ha hs hb active =
    rw (signal_task-deliver t a stop ha, stopped_from t t.state refl active)
      (rw
        (
          signal_task-deliver held sig act still,
          posted_while_stopped held sig act plain refl active,
        )
        (rw
          (signal_task-deliver told b continue later, continued_from told running refl refl refl)))
  where
    held : Task
    held = record t { state = uninterruptible; non_stop_state = t.state }

    told : Task
    told = record held {
      non_stop_state = running;
      signal_pending = true;
      sig_entries = marked t sig;
    }

    still : Acts held sig act
    still = record { low = hs.low; high = hs.high; valid = hs.valid; action = hs.action }

    clash : b ≡ sig → ⊥
    clash e =
        let same : act ≡ continue =
          sym hs.action ∙ ap (λ k. (t.sig_entries k).action) (sym e) ∙ hb.action in
        ground arith

    other : (b == sig) ≡ false
    other = elim (Bool-cases (b == sig)) [ inl e ↦ absurd (clash ((==_iff b sig).0 e)) | inr n ↦ n ]

    later : Acts told b continue
    later = record {
      low = hb.low;
      high = hb.high;
      valid = rw other hb.valid;
      action = rw other hb.action;
    }

pub signal_task-stop :
    (t : Task) (sig : ℕ)
    → Acts t sig stop
    → is_active t.state ≡ true
    → signal_task t sig ≡ done (ok, record t { state = uninterruptible; non_stop_state = t.state })
unfolding deliver
signal_task-stop t sig h active =
    rw (signal_task-deliver t sig stop h, stopped_from t t.state refl active)

pub posted_while_running :
    (t : Task) (sig : ℕ) (act : Action)
    → is_immediate act ≡ false
    → t.state ≡ running
    → deliver act t sig ≡ done (record t { signal_pending = true; sig_entries = marked t sig })
unfolding deliver raw_task_wake_up
posted_while_running t sig stop plain e = cc
posted_while_running t sig continue plain e = cc
posted_while_running t sig exit plain e = simp e
posted_while_running t sig ignore plain e = simp e
posted_while_running t sig user plain e = simp e
