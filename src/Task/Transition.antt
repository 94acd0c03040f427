-- ===== src/Task/Transition.antt =====
-- The life of a task under `transit_state` and `raw_task_wake_up` of kernel/task.c.
use zelda_os.Prelude.{◌≡◌, refl, ◌∙◌, ◌≢◌, ◌⊎◌, inl, inr, true, arith, done}
use zelda_os.Task.{
  TaskState, zombie, running, interruptible, uninterruptible, exiting, Task, transition_table,
  transit_state, raw_task_wake_up,
}

-- A run of calls on one task, none of which fails an ASSERT.
pub data Life : Task → Task → Type 0 where
  stay : {t : Task} → Life t t
  transit :
      {t u v : Task} (target : TaskState) → transit_state t target ≡ done u → Life u v → Life t v
  wake : {t u v : Task} → raw_task_wake_up t ≡ done u → Life u v → Life t v

-- every task of the run is EXITING
abbrev pub StaysExiting : {t v : Task} → Life t v → Type 0
StaysExiting (stay {t}) = t.state ≡ exiting
StaysExiting (transit {t} target e l) = (t.state ≡ exiting) × StaysExiting l
StaysExiting (wake {t} e l) = (t.state ≡ exiting) × StaysExiting l

-- The run becomes EXITING by a `transit_state` of a RUNNING task, after tasks that are not EXITING,
-- and stays so from there.
abbrev pub ExitsRunning : {t v : Task} → Life t v → Type 0
ExitsRunning stay = ⊥
ExitsRunning (transit {t} {u} target e l) =
    ((t.state ≡ running) × StaysExiting l) ⊎ ((t.state ≢ exiting) × ExitsRunning l)
ExitsRunning (wake {t} e l) = (t.state ≢ exiting) × ExitsRunning l

step_from_exiting : (target : TaskState) → transition_table exiting target ≡ true → target ≡ exiting
unfolding transition_table
step_from_exiting exiting h = refl
step_from_exiting zombie h = cc
step_from_exiting running h = cc
step_from_exiting interruptible h = cc
step_from_exiting uninterruptible h = cc

step_into_exiting :
    (s : TaskState) → transition_table s exiting ≡ true → (s ≡ running) ⊎ (s ≡ exiting)
unfolding transition_table
step_into_exiting s h = ground arith

exiting_or_not : (s : TaskState) → Dec (s ≡ exiting)
exiting_or_not s = ground arith

-- a task that `transit_state` takes to a state is in it, and the table permits the step
transit_state-target :
    (t u : Task) (target : TaskState)
    → transit_state t target ≡ done u
    → (u.state ≡ target) × (transition_table t.state target ≡ true)
unfolding transit_state
transit_state-target t u target e = ground arith

wake-exiting :
    (t u : Task) (s : TaskState)
    → t.state ≡ s
    → raw_task_wake_up t ≡ done u
    → (s ≢ exiting) × (u.state ≢ exiting)
unfolding raw_task_wake_up transit_state
wake-exiting t u s e h = ground arith

stays : {t v : Task} (l : Life t v) → t.state ≡ exiting → StaysExiting l
stays stay e = e
stays (transit {t} {u} target h l) e =
    let (at, permitted) = transit_state-target t u target h in
    (e, stays l (at ∙ step_from_exiting target (rw e at permitted)))
stays (wake {t} {u} h l) e = absurd ((wake-exiting t u t.state refl h).0 e)

-- In a run of `transit_state` and `raw_task_wake_up` calls on one task, none of which fails an
-- ASSERT, a task that is not EXITING at first and is EXITING at the end becomes so by a
-- `transit_state` call while it is RUNNING, never while it is blocked or stopped or by a wake-up;
-- before that call it is never EXITING, and from it on it is EXITING all the time.
pub exits_from_running :
    {t v : Task} (l : Life t v) → t.state ≢ exiting → v.state ≡ exiting → ExitsRunning l
exits_from_running (stay {t}) n e = absurd (n e)
exits_from_running (transit {t} {u} target h l) n e =
    let (at, permitted) = transit_state-target t u target h in
    elim (exiting_or_not target) [
      | yes x ↦ elim (step_into_exiting t.state (rw x at permitted)) [
        | inl r ↦ inl (r, stays l (at ∙ x))
        | inr f ↦ absurd (n f)
      ]
      | no k ↦ inr (n, exits_from_running l (λ x. k (rw at at x)) e)
    ]
exits_from_running (wake {t} {u} h l) n e =
    (n, exits_from_running l (wake-exiting t u t.state refl h).1 e)
