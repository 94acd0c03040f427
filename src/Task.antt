-- ===== src/Task.antt =====
-- kernel/include/task.h and kernel/task.c: the part of `struct task` that its life cycle is made
-- of, the table of permitted transitions, `transit_state`, `raw_task_wake_up` and the interrupt
-- entry and exit hooks.
pub mod Transition
mod Tests
use zelda_os.Prelude.{
  ℕ, suc, ◌+◌, ◌-◌, ◌%◌, ◌^◌, ◌≡◌, Bool, true, false, Outcome, done, panic, ensure, ◌>>=◌, ◌>>◌,
  ltb, ◌==◌, if◌then◌else◌,
}

pub data TaskState : Type 0 where
  zombie running interruptible uninterruptible exiting : TaskState

-- SIG_ACTION_*
pub data Action : Type 0 where
  exit ignore stop continue user : Action

pub record SignalEntry : Type 0 where
  pub valid : Bool
  pub signaled : Bool
  pub overridable : Bool
  pub action : Action
  pub user_entry : ℕ

-- `sig_entries` is indexed by signal number; addresses of CPU states and stacks are numbers.
pub record Task : Type 0 where
  pub state : TaskState
  pub non_stop_state : TaskState
  pub interrupt_depth : ℕ
  pub cpu : ℕ
  pub signaled_cpu : ℕ
  pub level0_stack_top : ℕ
  pub signaled_level0_stack_top : ℕ
  pub signal_scheduled : Bool
  pub signal_pending : Bool
  pub privilege_level : ℕ
  pub sig_entries : ℕ → SignalEntry

-- `transition_table`: what `task_state_transition_init` writes over zeroes.
unfoldable pub transition_table : TaskState → TaskState → Bool
transition_table zombie zombie = true
transition_table running running = true
transition_table exiting exiting = true
transition_table interruptible interruptible = true
transition_table uninterruptible uninterruptible = true
transition_table running interruptible = true
transition_table running uninterruptible = true
transition_table running exiting = true
transition_table interruptible running = true
transition_table interruptible uninterruptible = true
transition_table uninterruptible running = true
transition_table uninterruptible interruptible = true
transition_table _ _ = false

-- The first ASSERT, that the target is a state at all, holds by the type.
unfoldable pub transit_state : Task → TaskState → Outcome Task
unfolding transition_table
transit_state t target = do
  ensure (transition_table t.state target)
  done (record t { state = target })

-- ASSERT(non_stop_state == RUNNING || non_stop_state == INTERRUPTIBLE)
abbrev pub is_active : TaskState → Bool
is_active running = true
is_active interruptible = true
is_active _ = false

wake_in : TaskState → Task → Outcome Task
unfolding transit_state
wake_in running t = done t
wake_in interruptible t = transit_state t running
wake_in uninterruptible t = do
  ensure (is_active t.non_stop_state)
  done (record t { non_stop_state = running })
wake_in _ t = panic

unfoldable pub raw_task_wake_up : Task → Outcome Task
unfolding wake_in
raw_task_wake_up t = wake_in t.state t

-- The entry hook saves the interrupted CPU state in the slot of the context that was running.
unfoldable pub pre_interrupt : ℕ → Task → Task
pre_interrupt cpu t =
    if t.signal_scheduled
    then record t { interrupt_depth = (t.interrupt_depth + 1) % 2 ^ 32; signaled_cpu = cpu }
    else record t { interrupt_depth = (t.interrupt_depth + 1) % 2 ^ 32; cpu = cpu }

-- The exit hook, whose ASSERT reads the counter as a signed number.
unfoldable pub post_interrupt : Task → Outcome Task
post_interrupt t = do
  ensure (ltb ((t.interrupt_depth + 2 ^ 32 - 1) % 2 ^ 32) (2 ^ 31))
  done (record t { interrupt_depth = (t.interrupt_depth + 2 ^ 32 - 1) % 2 ^ 32 })
