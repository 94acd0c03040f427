-- ===== src/Scheduler.antt =====
-- kernel/task.c: the queues of tasks and `schedule`. A queue is the sequence of the tasks whose
-- nodes are in the list, front first: `list_append` adds at its end and `list_fetch` takes from its
-- front, as Links shows; the other links of a node are not part of the model, and the ASSERTs on them
-- are tests on the queues. `waiters` are the tasks in the termination queue of a task.
pub mod Places
pub mod Pick
pub mod Placed
pub mod Exits
pub mod Orderly
pub mod Round
mod Tests
use zelda_os.Prelude.{
  ℕ, Bool, true, false, not, ◌&&◌, ◌||◌, List, [], ◌∷◌, ◌++◌, ltb, ◌==◌, if◌then◌else◌, length,
  Outcome, done, ◌>>=◌, ◌>>◌, ensure,
}
use zelda_os.Links.{Ptr, null}
use zelda_os.Links.Chain.{has}
use zelda_os.Task.{
  TaskState, zombie, running, interruptible, uninterruptible, exiting, raw_task_wake_up,
}
use zelda_os.WaitQueue.{Tasks, put_task}

-- `reclaimed` are the tasks that `reclaim_task` was called for, the last one first; what it frees
-- is not modelled.
pub record Scheduler : Type 0 where
  pub tasks : Tasks
  pub ready : List Ptr
  pub blocking : List Ptr
  pub exiting_tasks : List Ptr
  pub zombies : List Ptr
  pub reclaimed : List Ptr
  pub current : Ptr
  pub idle : Ptr

-- Whether the links of a task point at another one: those of the only task of a queue do not.
pub is_linked : Ptr → List Ptr → Bool
is_linked p queue = has p queue && ltb 1 (length queue)

-- the ASSERTs of `list_append` and of `reclaim_task` that `list.prev` and `list.next` are null
pub is_detached : Scheduler → Ptr → Bool
unfolding is_linked
is_detached s p = not (
    is_linked p s.ready
    || is_linked p s.blocking
    || is_linked p s.exiting_tasks
    || is_linked p s.zombies)

pub task_put : Scheduler → Ptr → Outcome Scheduler
task_put s p = do ensure (is_detached s p); done (record s { ready = s.ready ++ p ∷ [] })

-- What `process_blocking_task_list` does with one task, by its state: `kept` are the tasks before it
-- that stay in the queue, and `rest` those behind it.
pub place_blocked :
    TaskState → Scheduler → (kept rest : List Ptr) → Ptr → Outcome (Scheduler × List Ptr)
place_blocked running s kept rest p = do
  s' ← task_put (record s { blocking = kept ++ rest }) p
  done (s', kept)
place_blocked exiting s kept rest p = do
  s' ← task_put (record s { blocking = kept ++ rest }) p
  done (s', kept)
place_blocked interruptible s kept rest p = done (s, kept ++ p ∷ [])
place_blocked uninterruptible s kept rest p = done (s, kept ++ p ∷ [])
place_blocked zombie s kept rest p = do
  ensure (is_detached (record s { blocking = kept ++ rest }) p)
  done (record s { blocking = kept ++ rest; zombies = s.zombies ++ p ∷ [] }, kept)

-- the walk over the queue of the blocked tasks
pub place_all : Scheduler → (kept rest : List Ptr) → Outcome Scheduler
place_all s kept [] = done s
place_all s kept (p ∷ ps) = do
  (s', kept') ← place_blocked (s.tasks p).state s kept ps p
  place_all s' kept' ps

pub process_blocking_task_list : Scheduler → Outcome Scheduler
process_blocking_task_list s = place_all s [] s.blocking

-- `wake_up` on the termination queue of a task
pub wake_all : Tasks → List Ptr → Outcome Tasks
wake_all ts [] = done ts
wake_all ts (p ∷ ps) = do
  ensure (not (p == null))
  t ← raw_task_wake_up (ts p)
  wake_all (put_task ts p t) ps

pub is_exiting : TaskState → Bool
is_exiting exiting = true
is_exiting _ = false

-- The loop of `process_exit_task_list` over the exit queue. `reclaim_task` is here its ASSERTs on
-- the links of the task and the fact that it was called.
pub exit_all : (Ptr → List Ptr) → Scheduler → List Ptr → Outcome Scheduler
exit_all waiters s [] = done s
exit_all waiters s (p ∷ ps) = do
  ensure (is_exiting (s.tasks p).state)
  ts ← wake_all s.tasks (waiters p)
  ensure (is_detached (record s { exiting_tasks = ps }) p)
  exit_all waiters (record s { tasks = ts; exiting_tasks = ps; reclaimed = p ∷ s.reclaimed }) ps

pub process_exit_task_list : (Ptr → List Ptr) → Scheduler → Outcome Scheduler
process_exit_task_list waiters s = exit_all waiters s s.exiting_tasks

-- where the loop of `schedule` puts a task that cannot run
pub put_aside : TaskState → Scheduler → Ptr → Outcome Scheduler
put_aside exiting s p = do
  ensure (is_detached s p)
  done (record s { exiting_tasks = s.exiting_tasks ++ p ∷ [] })
put_aside zombie s p = do
  ensure (is_detached s p)
  done (record s { zombies = s.zombies ++ p ∷ [] })
put_aside _ s p = do ensure (is_detached s p); done (record s { blocking = s.blocking ++ p ∷ [] })

pub is_running : TaskState → Bool
is_running running = true
is_running _ = false

-- the loop of `schedule` over the ready queue, which is what is left to fetch
pub pick_from : Scheduler → List Ptr → Outcome Scheduler
pick_from s [] = done (record s { ready = []; current = s.idle })
pick_from s (p ∷ ps) =
    let on = (do s' ← put_aside (s.tasks p).state (record s { ready = ps }) p; pick_from s' ps) in
    if is_running (s.tasks p).state then done (record s { ready = ps; current = p }) else on

pub put_current : Scheduler → Outcome Scheduler
put_current s = if s.current == null then done s else (do
  s' ← if s.current == s.idle then done s else task_put s s.current
  done (record s' { current = null }))

-- The next task, in the scheduler, and the stack pointer to resume it with. The counter of the task
-- and the switch to its page tables and its kernel stack are left out.
pub schedule : (Ptr → List Ptr) → Scheduler → Outcome (ℕ × Scheduler)
schedule waiters s = do
  s₁ ← put_current s
  s₂ ← process_blocking_task_list s₁
  s₃ ← process_exit_task_list waiters s₂
  s₄ ← pick_from s₃ s₃.ready
  ensure (not (s₄.current == null))
  done ((s₄.tasks s₄.current).cpu, s₄)
