-- ===== src/Signal/Process.antt =====
-- `task_process_signal`: the lowest waiting signal is taken when a task returns to user space at
-- interrupt depth 1, and `return_from_pl3_signal_context` ends a user handler.
pub mod Scan
pub mod Picks
pub mod Keeps
pub mod Disposition
pub mod Faults
use zelda_os.Prelude.{
  ℕ, zero, suc, ◌+◌, ◌-◌, ◌*◌, ◌%◌, ◌^◌, Bool, true, false, not, ◌&&◌, Option, none, some, List, [],
  ◌∷◌, ltb, ◌==◌, if◌then◌else◌, Outcome, done, panic, ◌>>=◌, ◌>>◌, ensure,
}
use zelda_os.Signal.Table.{Entries, update}
use zelda_os.Signal.Sig
use zelda_os.Task.{
  TaskState, running, uninterruptible, exiting, Action, exit, ignore, user, SignalEntry, Task,
  transit_state,
}

abbrev pub is_waiting : SignalEntry → Bool
is_waiting e = e.valid && e.signaled

-- for (; idx < idx + rounds; idx++) if (valid && signaled) break;
pub next_signaled : Entries → (rounds idx : ℕ) → ℕ
next_signaled es zero idx = idx
next_signaled es (suc n) idx =
    let rest = next_signaled es n (idx + 1) in if is_waiting (es idx) then idx else rest

-- struct x86_cpustate
pub record CpuState : Type 0 where
  pub edi : ℕ
  pub esi : ℕ
  pub ebp : ℕ
  pub ebx : ℕ
  pub edx : ℕ
  pub ecx : ℕ
  pub eax : ℕ
  pub gs : ℕ
  pub fs : ℕ
  pub es : ℕ
  pub ds : ℕ
  pub vector : ℕ
  pub errorcode : ℕ
  pub eip : ℕ
  pub cs : ℕ
  pub eflags : ℕ
  pub esp : ℕ
  pub ss : ℕ

-- What `prepare_signal_context` writes: the words pushed on the user's signal stack, and the CPU
-- state at the top of the signal stack of the kernel.
pub record Context : Type 0 where
  pub pushed : List (ℕ × ℕ)
  pub frame : CpuState

abbrev pub signal_stack_top : ℕ
signal_stack_top = 0xA0000000 + 1024 * 1024

-- `return_from_pl3_signal_context` is an address that the linker chooses.
module _ (return_address : ℕ) where
  pub signal_context : ℕ → ℕ → Context
  signal_context sig user_entry =
      let top : ℕ = signal_stack_top - 0x100 in
      record {
        pushed = (top - 4, sig) ∷ (top - 8, return_address) ∷ [];
        frame = record {
          edi = 0;
          esi = 0;
          ebp = 0;
          ebx = 0;
          edx = 0;
          ecx = 0;
          eax = 0;
          gs = 0x23;
          fs = 0x23;
          es = 0x23;
          ds = 0x23;
          vector = 0;
          errorcode = 0;
          eip = user_entry;
          cs = 0x1b;
          eflags = 0x3202;
          esp = top - 8;
          ss = 0x23;
        };
      }

  is_user : Action → Bool
  is_user user = true
  is_user _ = false

  prepare_signal_context : Task → ℕ → Outcome (Task × Context)
  unfolding signal_context is_user
  prepare_signal_context t sig = do
    ensure (t.privilege_level == 3)
    ensure (ltb 0 sig && ltb sig Sig.max)
    ensure (t.sig_entries sig).valid
    ensure (is_user (t.sig_entries sig).action)
    ensure (not ((t.sig_entries sig).user_entry == 0))
    done (
      record t { signaled_cpu = (t.signaled_level0_stack_top + 2 ^ 32 - 72) % 2 ^ 32 },
      signal_context sig (t.sig_entries sig).user_entry,
    )

-- What `task_process_signal` returns with: the ESP to resume from, the stack loaded into the TSS
-- if it was changed, and a prepared handler context. After `yield_cpu` an exiting task never
-- comes back.
pub data Resumption : Type 0 where
  resume : Option Task → (esp : ℕ) → (tss : Option ℕ) → Option Context → Resumption
  yielded : Task → Resumption

-- the label `out`
leave : Option Task → ℕ → Option Context → Resumption
leave none esp c = resume none esp none c
leave (some t) esp c =
    if t.signal_scheduled
    then resume (some t) t.signaled_cpu (some t.signaled_level0_stack_top) c
    else resume (some t) esp none c

pub may_process : TaskState → Bool
may_process running = true
may_process uninterruptible = true
may_process _ = false

-- clears the chosen signal, and the pending flag if no later one waits
pub unmark : Task → ℕ → Task
unmark t sig =
    let es = update t.sig_entries sig (record (t.sig_entries sig) { signaled = false }) in
    let later = next_signaled es (Sig.max - (sig + 1)) (sig + 1) in
    record t {
      sig_entries = es;
      signal_pending = if later == Sig.max then false else t.signal_pending;
    }

module _ (return_address : ℕ) where
  -- the switch on the action of the chosen signal
  pub act : Action → Task → ℕ → ℕ → Outcome Resumption
  act ignore t sig esp = done (leave (some t) esp none)
  act exit t sig esp = do t' ← transit_state t exiting; done (yielded t')
  act user t sig esp = do
    (t', c) ← prepare_signal_context return_address t sig
    done (leave (some (record t' { signal_scheduled = true })) esp (some c))
  act _ t sig esp = panic

  take_signal : Task → ℕ → ℕ → Outcome Resumption
  unfolding unmark act
  take_signal t sig esp =
      if sig == Sig.max
      then done (leave (some (record t { signal_pending = false })) esp none)
      else (do
        ensure (t.sig_entries sig).signaled
        act (t.sig_entries sig).action (unmark t sig) sig esp)

  task_process : Task → ℕ → Outcome Resumption
  unfolding take_signal
  task_process t esp =
      if (t.privilege_level == 3) && (t.interrupt_depth == 1)
      then (do
        ensure (may_process t.state)
        if not t.signal_scheduled && t.signal_pending
            then take_signal t (next_signaled t.sig_entries (Sig.max - 1) 1) esp
            else done (leave (some t) esp none))
      else done (leave (some t) esp none)

  -- The argument is `current` and the address of the CPU state to resume.
  pub task_process_signal : Option Task → ℕ → Outcome Resumption
  unfolding task_process
  task_process_signal none esp = done (leave none esp none)
  task_process_signal (some t) esp = task_process t esp

-- Back in the kernel from a handler: the task, the ESP to resume and the TSS stack.
pub return_from_pl3_signal_context : Task → ℕ → Outcome (Task × ℕ × ℕ)
return_from_pl3_signal_context t esp = do
  ensure t.signal_scheduled
  ensure (t.signaled_cpu == esp)
  done (record t { signal_scheduled = false }, t.cpu, t.level0_stack_top)
