-- ===== src/WaitQueue/Tests.antt =====
-- The wait queue theorems at a concrete queue of two entries.
use zelda_os.Prelude.{◌+◌, refl, false, [], ◌∷◌, arith, ◌==◌, if◌then◌else◌, Yields}
use zelda_os.Links.{Ptr, Memory}
use zelda_os.Links.Shape.{IsList}
use zelda_os.Task.{zombie, interruptible, exit, Task}
use zelda_os.WaitQueue.{wake_up}
use zelda_os.WaitQueue.WakeUp.{AllActive, Woken, wake_up-Woken}

-- a head at 8 with the entries 16 and 24
abbrev memory : Memory
memory a =
    if a == 8
    then record { prev = 24; next = 16 }
    else if a == 16
    then record { prev = 0; next = 24 }
    else if a == 24
    then record { prev = 16; next = 0 }
    else record { prev = 0; next = 0 }

queue : IsList memory 8 (16 ∷ 24 ∷ [])
queue = record {
  apart = (refl, (refl, (refl, tt)));
  nonnull = refl;
  first = refl;
  last = refl;
  links = (refl, refl, (refl, refl, tt));
}

-- each entry's task stands 100 above it, and waits
abbrev waiting : Task
waiting = record {
  state = interruptible;
  non_stop_state = zombie;
  interrupt_depth = 1;
  cpu = 0;
  signaled_cpu = 0;
  level0_stack_top = 0;
  signaled_level0_stack_top = 0;
  signal_scheduled = false;
  signal_pending = false;
  privilege_level = 3;
  sig_entries = λ _. record {
    valid = false;
    signaled = false;
    overridable = false;
    action = exit;
    user_entry = 0;
  };
}

abbrev task_of : Ptr → Ptr
task_of e = e + 100

active : AllActive task_of (λ _. waiting) (16 ∷ 24 ∷ [])
active p o = (λ z. absurd (ground arith), refl)

wake_up-Woken_example :
    Yields (wake_up 5 memory task_of 8 (λ _. waiting)) (Woken task_of (λ _. waiting) (16 ∷ 24 ∷ []))
wake_up-Woken_example =
    wake_up-Woken 5 memory task_of 8 (16 ∷ 24 ∷ []) (λ _. waiting) queue (omega arith) active
