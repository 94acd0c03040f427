-- ===== src/Signal/Tests.antt =====
-- The signal theorems at a concrete user task, and short runs.
use zelda_os.Prelude.{
  ℕ, ◌≡◌, refl, ap, subst, true, false, some, arith, if◌then◌else◌, done, panic, ◌>>=◌, Ends,
}
use zelda_os.Status.{ok, err_not_supported}
use zelda_os.Task.{zombie, running, exit, stop, continue, Task}
use zelda_os.Signal.Table.{blank, task_signal_init}
use zelda_os.Signal.WellFormed.{IsWellFormed, is_live}
use zelda_os.Signal.Post.{signal_task}
use zelda_os.Signal.Post.Keeps.{signal_task-IsWellFormed}
use zelda_os.Signal.Post.Stop.{
  Acts, signal_task-deliver, marked, signal_task-stop-post-continue, posted_while_running,
}
use zelda_os.Signal.Process.{is_waiting, task_process_signal}
use zelda_os.Signal.Process.Scan.{IsLowest}
use zelda_os.Signal.Process.Picks.{IsDue, IsNext}
use zelda_os.Signal.Process.Keeps.{Released, task_process_signal-Released}
use zelda_os.Signal.Process.Faults.{stop-exit-panic}
use zelda_os.Signal.Sig
use zelda_os.Signal.Reach.{signalled, here, next, Reach-kill, task_signal_init-IsWellFormed}

abbrev spawned : Task
spawned = record {
  state = running;
  non_stop_state = zombie;
  interrupt_depth = 1;
  cpu = 0x9000;
  signaled_cpu = 0;
  level0_stack_top = 0xA000;
  signaled_level0_stack_top = 0xC000;
  signal_scheduled = false;
  signal_pending = false;
  privilege_level = 3;
  sig_entries = λ _. blank;
}

-- a user task in a system call, with the default dispositions
abbrev shell : Task
shell = task_signal_init spawned

shell_fits : IsWellFormed shell
shell_fits = task_signal_init-IsWellFormed spawned refl

shell_stop : Acts shell Sig.stop_now stop
unfolding task_signal_init
shell_stop = record { low = omega arith; high = omega arith; valid = refl; action = refl }

shell-cont : Acts shell Sig.cont continue
unfolding task_signal_init
shell-cont = record { low = omega arith; high = omega arith; valid = refl; action = refl }

shell-int : Acts shell Sig.int exit
unfolding task_signal_init
shell-int = record { low = omega arith; high = omega arith; valid = refl; action = refl }

-- the shell with SIGINT posted
abbrev interrupted : Task
interrupted = record shell { signal_pending = true; sig_entries = marked shell Sig.int }

interrupted-IsDue : IsDue interrupted
unfolding task_signal_init
interrupted-IsDue = record { user_level = refl; outermost = refl; outside = refl; flagged = refl }

interrupted-IsNext : IsNext interrupted Sig.int exit
unfolding task_signal_init
interrupted-IsNext = record { lowest = alone; action = refl }
  where
    alone : IsLowest (marked shell Sig.int) Sig.int
    alone = record {
      low = omega arith;
      high = omega arith;
      waiting = refl;
      lower = λ k a b.
          let one : 1 ≡ k = omega arith in
          subst (λ (n : ℕ). is_waiting (marked shell Sig.int n) ≡ false) one refl;
    }

signal_task-IsWellFormed_example : Ends (signal_task shell Sig.int) (λ (r, t').
    IsWellFormed t'
    × (is_live t'.state ≡ true)
    × (r ≡ (if (shell.sig_entries Sig.int).valid then ok else err_not_supported))
    × ((shell.sig_entries Sig.int).valid ≡ false → t' ≡ shell))
unfolding task_signal_init
signal_task-IsWellFormed_example =
    signal_task-IsWellFormed shell Sig.int (omega arith) (omega arith) shell_fits refl

signal_task-stop-post-continue_example :
    (signal_task shell Sig.stop_now >>= λ (_, t₁).
    signal_task t₁ Sig.int >>= λ (_, t₂). signal_task t₂ Sig.cont)
    ≡ done (
      ok,
      record shell {
        state = running;
        non_stop_state = zombie;
        signal_pending = true;
        sig_entries = marked shell Sig.int;
      },
    )
unfolding task_signal_init
signal_task-stop-post-continue_example =
    signal_task-stop-post-continue shell Sig.stop_now Sig.int Sig.cont exit refl shell_stop
      shell-int shell-cont refl

task_process_signal-Released_example :
    Ends (task_process_signal 0x1234 (some shell) 0x9000) Released
unfolding task_signal_init
task_process_signal-Released_example =
    task_process_signal-Released 0x1234 shell 0x9000 shell_fits refl

stop-exit-panic_example :
    (signal_task shell Sig.stop_now >>= λ (_, t₁).
    signal_task t₁ Sig.int >>= λ (_, t₂). task_process_signal 0x1234 (some t₂) 0x9000)
    ≡ panic
unfolding task_signal_init
stop-exit-panic_example =
    stop-exit-panic 0x1234 shell Sig.stop_now Sig.int 0x9000 shell_fits refl refl refl refl refl
      shell_stop shell-int

Reach-kill_example :
    ((interrupted.sig_entries Sig.kill).valid ≡ true)
    × ((interrupted.sig_entries Sig.kill).overridable ≡ false)
    × ((interrupted.sig_entries Sig.kill).action ≡ exit)
unfolding task_signal_init
Reach-kill_example = Reach-kill 0x1234 spawned (next here (signalled Sig.int ok posted))
  where
    posted : signal_task shell Sig.int ≡ done (ok, interrupted)
    posted =
        rw (signal_task-deliver shell Sig.int exit shell-int)
          (ap (λ m. m >>= λ t'. done (ok, t')) (posted_while_running shell Sig.int exit refl refl))
