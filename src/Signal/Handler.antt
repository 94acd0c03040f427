-- ===== src/Signal/Handler.antt =====
-- `call_sys_signal`: the system call that installs a user handler.
pub mod Effect
use zelda_os.Prelude.{ℕ, ◌^◌, Bool, not, ◌||◌, leb, ◌==◌, if◌then◌else◌}
use zelda_os.Signal.Table.{update}
use zelda_os.Signal.Sig
use zelda_os.Status.{Status, ok, err_invalid_arg, err_not_supported}
use zelda_os.Task.{user, Task}

-- `signal <= 0` on the bit pattern of an `int32_t`
abbrev non_positive : ℕ → Bool
non_positive n = (n == 0) || leb (2 ^ 31) n

pub call_sys_signal : Task → (signal handler : ℕ) → Status × Task
call_sys_signal t signal handler =
    if non_positive signal || leb Sig.max signal
    then (err_invalid_arg, t)
    else if not (t.sig_entries signal).valid || not (t.sig_entries signal).overridable
    then (err_not_supported, t)
    else (
      ok,
      record t {
        sig_entries =
            update t.sig_entries signal
              (record (t.sig_entries signal) { action = user; user_entry = handler });
      },
    )
