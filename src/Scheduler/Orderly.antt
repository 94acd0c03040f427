-- ===== src/Scheduler/Orderly.antt =====
-- That no task stands in two queues, before and after `schedule`.
use zelda_os.Prelude.{
  ◌+◌, ◌≤◌, ◌≡◌, refl, ◌≢◌, inl, inr, true, false, List, [], ◌∷◌, ◌++◌, arith, ◌==◌, if◌then◌else◌,
  ==_iff, Bool-cases,
}
use zelda_os.Scheduler.{Scheduler}
use zelda_os.Scheduler.Places.{count, count-append, places}
use zelda_os.Scheduler.Pick.{
  keep, is_blocked, is_zombie, is_promoted, exits, first_running, skipped, behind, picked,
}
use zelda_os.Scheduler.Exits.{woken, waits, reclaim}
use zelda_os.Links.{Ptr, null}
use zelda_os.Task.{TaskState, zombie, running, interruptible, uninterruptible, exiting}
use zelda_os.WaitQueue.{Tasks}

-- the current task, unless there is none or it is the idle task
abbrev pub outgoing : Scheduler → List Ptr
outgoing s = if s.current == null then [] else if s.current == s.idle then [] else s.current ∷ []

-- the ready queue that the next task is taken from: the ready tasks, then the task that ran, then
-- the blocked ones that can go on
abbrev pub candidates : Scheduler → List Ptr
candidates s = (s.ready ++ outgoing s) ++ keep is_promoted s.tasks s.blocking

-- The scheduler before the ready queue is searched: the exit queue is reclaimed, and the tasks that
-- wait for its tasks are RUNNING.
abbrev pub settled : (Ptr → List Ptr) → Scheduler → Scheduler
settled waiters s = record s {
  tasks = woken (waits waiters s.exiting_tasks) s.tasks;
  ready = candidates s;
  blocking = keep is_blocked s.tasks s.blocking;
  exiting_tasks = [];
  zombies = s.zombies ++ keep is_zombie s.tasks s.blocking;
  reclaimed = reclaim s.exiting_tasks s.reclaimed;
  current = null;
}

-- No task stands in two queues or twice in one, the task that runs and NULL stand in none, and there
-- is an idle task.
pub record IsOrderly (s : Scheduler) : Type 0 where
  pub apart : (a : Ptr) → places s a + count a (outgoing s) ≤ 1
  pub no_null : places s null ≡ 0
  pub some_idle : s.idle ≢ null

-- the tasks of a queue that are kept by their states are each kept once
count-keep :
    (a : Ptr) (ts : Tasks) (q : List Ptr)
    → count a (keep is_promoted ts q)
        + count a (keep is_blocked ts q)
        + count a (keep is_zombie ts q)
      ≡ count a q
count-keep a ts [] = omega arith
count-keep a ts (p ∷ ps) = by_state (ts p).state refl (count-keep a ts ps)
  where
    by_state :
        (state : TaskState)
        → (ts p).state ≡ state
        → count a (keep is_promoted ts ps)
            + count a (keep is_blocked ts ps)
            + count a (keep is_zombie ts ps)
          ≡ count a ps
        → count a (keep is_promoted ts (p ∷ ps))
            + count a (keep is_blocked ts (p ∷ ps))
            + count a (keep is_zombie ts (p ∷ ps))
          ≡ count a (p ∷ ps)
    by_state running e on = rw e (omega arith)
    by_state exiting e on = rw e (omega arith)
    by_state interruptible e on = rw e (omega arith)
    by_state uninterruptible e on = rw e (omega arith)
    by_state zombie e on = rw e (omega arith)

-- the queues before the ready queue is searched hold the tasks that they held and the one that ran
pub places-settled :
    (waiters : Ptr → List Ptr) (s : Scheduler) (a : Ptr)
    → places (settled waiters s) a + count a s.exiting_tasks ≡ places s a + count a (outgoing s)
places-settled waiters s a =
    let kept = count-keep a s.tasks s.blocking in
    rw
      (
        count-append a (s.ready ++ outgoing s) (keep is_promoted s.tasks s.blocking),
        count-append a s.ready (outgoing s),
        count-append a s.zombies (keep is_zombie s.tasks s.blocking),
      )
      (omega arith)

pub outgoing-null : (s : Scheduler) → count null (outgoing s) ≡ 0
outgoing-null s = elim (Bool-cases (s.current == null)) [
  | inl e ↦ rw e
  | inr n ↦ elim (Bool-cases (s.current == s.idle)) [
    | inl e ↦ rw (n, e)
    | inr m ↦ let e : (null == s.current) ≡ false = ground arith in rw (n, m, e) (omega arith)
  ]
]

-- the scheduler after `schedule`
abbrev pub scheduled : (Ptr → List Ptr) → Scheduler → Scheduler
scheduled waiters s = picked (settled waiters s) (candidates s)

-- what counts as outgoing if `current` is the task that runs
abbrev out : (current idle : Ptr) → List Ptr
out current idle = if current == null then [] else if current == idle then [] else current ∷ []

count-out : (a current idle : Ptr) → count a (out current idle) ≤ (if a == current then 1 else 0)
count-out a current idle = elim (Bool-cases (current == null)) [
  | inl e ↦ rw e (omega arith)
  | inr n ↦ elim (Bool-cases (current == idle)) [
    | inl e ↦ rw (n, e) (omega arith)
    | inr m ↦ rw (n, m) (omega arith)
  ]
]

out-idle : (idle : Ptr) → out idle idle ≡ []
out-idle idle =
    let self : (idle == idle) ≡ true = (==_iff idle idle).1 refl in
    elim (Bool-cases (idle == null)) [ inl e ↦ rw e | inr n ↦ rw (n, self) ]

-- a task of the ready queue is set aside by its state, made current or left
count-picked :
    (a : Ptr) (ts : Tasks) (q : List Ptr) (idle : Ptr)
    → count a (behind ts q)
        + count a (keep is_blocked ts (skipped ts q))
        + count a (keep exits ts (skipped ts q))
        + count a (keep is_zombie ts (skipped ts q))
        + count a (out (first_running ts q idle) idle)
      ≤ count a q
count-picked a ts [] idle = rw (out-idle idle) (omega arith)
count-picked a ts (p ∷ ps) idle = by_state (ts p).state refl (count-picked a ts ps idle)
  where
    by_state :
        (state : TaskState)
        → (ts p).state ≡ state
        → count a (behind ts ps)
            + count a (keep is_blocked ts (skipped ts ps))
            + count a (keep exits ts (skipped ts ps))
            + count a (keep is_zombie ts (skipped ts ps))
            + count a (out (first_running ts ps idle) idle)
          ≤ count a ps
        → count a (behind ts (p ∷ ps))
            + count a (keep is_blocked ts (skipped ts (p ∷ ps)))
            + count a (keep exits ts (skipped ts (p ∷ ps)))
            + count a (keep is_zombie ts (skipped ts (p ∷ ps)))
            + count a (out (first_running ts (p ∷ ps) idle) idle)
          ≤ count a (p ∷ ps)
    by_state running e on = rw e (let h = count-out a p idle in omega arith)
    by_state exiting e on = rw (e, e) (omega arith)
    by_state interruptible e on = rw (e, e) (omega arith)
    by_state uninterruptible e on = rw (e, e) (omega arith)
    by_state zombie e on = rw (e, e) (omega arith)

pub places-scheduled :
    (waiters : Ptr → List Ptr) (s : Scheduler) (a : Ptr)
    → places (scheduled waiters s) a + count a (outgoing (scheduled waiters s))
      ≤ places s a + count a (outgoing s)
places-scheduled waiters s a =
    let ts = woken (waits waiters s.exiting_tasks) s.tasks in
    let e = places-settled waiters s a in
    let h = count-picked a ts (candidates s) s.idle in
    rw
      (
        count-append a (keep is_blocked s.tasks s.blocking)
            (keep is_blocked ts (skipped ts (candidates s))),
        count-append a (s.zombies ++ keep is_zombie s.tasks s.blocking)
            (keep is_zombie ts (skipped ts (candidates s))),
      )
      (omega arith)
