-- ===== src/Scheduler/Tests.antt =====
-- A round with a task that exits, one that waits for it, one that runs and one that blocks.
use zelda_os.Prelude.{◌≡◌, refl, false, List, [], ◌∷◌, arith, ◌==◌, if◌then◌else◌, done}
use zelda_os.Scheduler.{Scheduler, schedule}
use zelda_os.Scheduler.Exits.{CanExit}
use zelda_os.Scheduler.Round.{resumed, schedule-scheduled}
use zelda_os.Scheduler.Orderly.{IsOrderly, scheduled}
use zelda_os.Links.{Ptr}
use zelda_os.Task.{TaskState, zombie, running, interruptible, exiting, Task}
use zelda_os.Signal.Table.{blank}

abbrev task_in : TaskState → Task
task_in state = record {
  state = state;
  non_stop_state = zombie;
  interrupt_depth = 0;
  cpu = 0;
  signaled_cpu = 0;
  level0_stack_top = 0;
  signaled_level0_stack_top = 0;
  signal_scheduled = false;
  signal_pending = false;
  privilege_level = 3;
  sig_entries = λ _. blank;
}

-- 8 exits and 16 waits for it; 24 is ready; 32 ran and blocks
abbrev before : Scheduler
before = record {
  tasks = λ p.
      if p == 8
      then task_in exiting
      else if p == 24
      then task_in running
      else task_in interruptible;
  ready = 24 ∷ [];
  blocking = 16 ∷ [];
  exiting_tasks = 8 ∷ [];
  zombies = [];
  reclaimed = [];
  current = 32;
  idle = 64;
}

abbrev waiters : Ptr → List Ptr
waiters p = if p == 8 then 16 ∷ [] else []

before-CanExit : CanExit waiters before.tasks before.exiting_tasks
before-CanExit p i =
    let e : p ≡ 8 = ground arith in
    rw e (refl, λ w j. let f : w ≡ 16 = ground arith in rw f (omega arith, refl))

before-IsOrderly : IsOrderly before
before-IsOrderly = record { apart = λ a. ground arith; no_null = refl; some_idle = omega arith }

schedule-scheduled_example :
    (schedule waiters before ≡ done (resumed (scheduled waiters before)))
    × IsOrderly (scheduled waiters before)
schedule-scheduled_example = schedule-scheduled waiters before before-IsOrderly before-CanExit

round : (scheduled waiters before).current ≡ 24
round = refl
