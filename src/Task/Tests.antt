-- ===== src/Task/Tests.antt =====
-- The life of a task that blocks, is woken and exits.
use zelda_os.Prelude.{refl, false}
use zelda_os.Task.{
  TaskState, zombie, running, interruptible, exiting, Task, transition_table, transit_state,
  raw_task_wake_up,
}
use zelda_os.Task.Transition.{Life, stay, transit, wake, ExitsRunning, exits_from_running}
use zelda_os.Signal.Table.{blank}

abbrev task_in : TaskState → Task
task_in state = record {
  state = state;
  non_stop_state = zombie;
  interrupt_depth = 0;
  cpu = 0;
  signaled_cpu = 0;
  level0_stack_top = 0;
  signaled_level0_stack_top = 0;
  signal_scheduled = false;
  signal_pending = false;
  privilege_level = 3;
  sig_entries = λ _. blank;
}

abbrev blocks_then_exits : Life (task_in running) (task_in exiting)
unfolding transition_table transit_state raw_task_wake_up
blocks_then_exits = transit {u = task_in interruptible} interruptible refl (
    wake {u = task_in running} refl
      (transit {u = task_in exiting} exiting refl (transit exiting refl stay)))

exits_from_running_example : ExitsRunning blocks_then_exits
exits_from_running_example = exits_from_running blocks_then_exits (λ e. cc) refl
