-- ===== src/Signal/WellFormed.antt =====
-- The invariant of a task's signal state.
use zelda_os.Prelude.{ℕ, ◌<◌, ◌≡◌, ◌≢◌, inl, inr, Bool, true, false, ◌==◌, Bool-cases}
use zelda_os.Task.{
  TaskState, zombie, uninterruptible, exiting, Action, stop, continue, user, SignalEntry, Task,
  is_active,
}
use zelda_os.Signal.Table.{Entries, update}
use zelda_os.Signal.Sig

-- the actions that `signal_task` carries out itself
abbrev pub is_immediate : Action → Bool
is_immediate stop = true
is_immediate continue = true
is_immediate _ = false

-- states in which the task may still be signalled
abbrev pub is_live : TaskState → Bool
is_live zombie = false
is_live exiting = false
is_live _ = true

abbrev pub EntryOk : SignalEntry → Type 0
EntryOk e =
    (is_immediate e.action ≡ true → (e.signaled ≡ false) × (e.overridable ≡ false))
    × (e.action ≡ user → e.user_entry ≢ 0)
    × (e.signaled ≡ true → e.valid ≡ true)

pub record IsWellFormed (t : Task) : Type 0 where
  pub stopped : t.state ≡ uninterruptible → is_active t.non_stop_state ≡ true
  pub entries : (i : ℕ) → EntryOk (t.sig_entries i)
  pub flagged :
      (i : ℕ) → 0 < i → i < Sig.max → (t.sig_entries i).signaled ≡ true → t.signal_pending ≡ true

-- writing one good entry keeps the table good
pub EntryOk-update :
    (es : Entries) (k : ℕ) (e : SignalEntry)
    → ((i : ℕ) → EntryOk (es i))
    → EntryOk e
    → (i : ℕ) → EntryOk (update es k e i)
EntryOk-update es k e all one i = elim (Bool-cases (i == k)) [
  | inl at ↦ rw at one
  | inr off ↦ rw off (all i)
]
