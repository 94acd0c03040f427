-- ===== src/Signal/Table.antt =====
-- The signal numbers, the table of a task's signal entries and its default contents
-- (`task_signal_init`).
use zelda_os.Prelude.{ℕ, List, [], ◌∷◌, Bool, true, false, ◌==◌, if◌then◌else◌}
use zelda_os.Task.{Action, exit, ignore, stop, continue, SignalEntry, Task}
use zelda_os.Signal.Sig

abbrev pub Entries : Type 0
Entries = ℕ → SignalEntry

abbrev pub update : Entries → ℕ → SignalEntry → Entries
update es k e i = if i == k then e else es i

-- an entry that memset has cleared; SIG_ACTION_EXIT is 0
abbrev pub blank : SignalEntry
blank = record {
  valid = false;
  signaled = false;
  overridable = false;
  action = exit;
  user_entry = 0;
}

unfoldable pub install : ℕ → Bool → Action → Entries → Entries
install k over a es = update es k (record (es k) { valid = true; overridable = over; action = a })

-- signal, overridable, action: the assignments of `task_signal_init` in their order
abbrev pub defaults : List (ℕ × Bool × Action)
defaults =
    (Sig.hup, false, exit)
    ∷ (Sig.int, true, exit)
    ∷ (Sig.quit, false, exit)
    ∷ (Sig.ill, false, exit)
    ∷ (Sig.fpe, false, exit)
    ∷ (Sig.kill, false, exit)
    ∷ (Sig.segv, false, exit)
    ∷ (Sig.sys, false, exit)
    ∷ (Sig.pipe, true, exit)
    ∷ (Sig.alarm, true, ignore)
    ∷ (Sig.term, false, exit)
    ∷ (Sig.usr1, true, ignore)
    ∷ (Sig.usr2, true, ignore)
    ∷ (Sig.stop_now, false, stop)
    ∷ (Sig.tstp, false, stop)
    ∷ (Sig.cont, false, continue)
    ∷ (Sig.ttin, false, stop)
    ∷ (Sig.ttou, false, stop)
    ∷ []

unfoldable pub install_all : List (ℕ × Bool × Action) → Entries → Entries
unfolding install
install_all [] es = es
install_all ((k, over, a) ∷ rest) es = install_all rest (install k over a es)

unfoldable pub task_signal_init : Task → Task
unfolding install_all
task_signal_init t = record t { sig_entries = install_all defaults (λ _. blank) }
