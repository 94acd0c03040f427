-- ===== src/Signal/Reach.antt =====
-- The life of a task's signal state: any sequence of signals, handler installations and returns to
-- user space, from the state that `task_signal_init` sets up.
use zelda_os.Prelude.{
  ℕ, ◌≡◌, refl, ◌∙◌, ◌≢◌, inl, inr, Bool, true, false, Option, some, List, [], ◌∷◌, arith, ◌==◌,
  Bool-cases, done,
}
use zelda_os.Status.{Status}
use zelda_os.Task.{running, Action, exit, user, SignalEntry, Task}
use zelda_os.Signal.Table.{Entries, blank, install, defaults, install_all, task_signal_init}
use zelda_os.Signal.WellFormed.{IsWellFormed, is_immediate}
use zelda_os.Signal.Post.{signal_task}
use zelda_os.Signal.Process.{Context, resume, task_process_signal, return_from_pl3_signal_context}
use zelda_os.Signal.Sig
use zelda_os.Signal.Handler.{call_sys_signal}
use zelda_os.Signal.Handler.Effect.{call_sys_signal-fixed}
use zelda_os.Signal.Post.Disposition.{
  SameDisposition, SameDisposition-refl, signal_task-SameDisposition,
}
use zelda_os.Signal.Process.Disposition.{task_process_signal-SameDisposition, handler_return-table}

-- an entry before any signal or handler
record IsFresh (e : SignalEntry) : Type 0 where
  unsignaled : e.signaled ≡ false
  not_user : e.action ≢ user
  protected : is_immediate e.action ≡ true → e.overridable ≡ false

install-IsFresh :
    (k : ℕ) (over : Bool) (a : Action) (es : Entries)
    → a ≢ user
    → (is_immediate a ≡ true → over ≡ false)
    → ((i : ℕ) → IsFresh (es i))
    → (i : ℕ) → IsFresh (install k over a es i)
unfolding install
install-IsFresh k over a es nu keep all i = elim (Bool-cases (i == k)) [
  | inl at ↦ rw at (record { unsignaled = (all k).unsignaled; not_user = nu; protected = keep })
  | inr off ↦ rw off (all i)
]

abbrev AllFit : List (ℕ × Bool × Action) → Type 0
AllFit [] = Unit
AllFit ((k, over, a) ∷ rest) = ((a ≢ user) × (is_immediate a ≡ true → over ≡ false)) × AllFit rest

install_all-IsFresh :
    (rows : List (ℕ × Bool × Action)) (es : Entries)
    → AllFit rows
    → ((i : ℕ) → IsFresh (es i))
    → (i : ℕ) → IsFresh (install_all rows es i)
unfolding install_all
install_all-IsFresh [] es fit all = all
install_all-IsFresh ((k, over, a) ∷ rest) es fit all =
    install_all-IsFresh rest (install k over a es) fit.1
      (install-IsFresh k over a es fit.0.0 fit.0.1 all)

defaults_fit : AllFit defaults
defaults_fit = ground arith

-- A running task is well formed once `task_signal_init` has set its table up.
pub task_signal_init-IsWellFormed :
    (t : Task) → t.state ≡ running → IsWellFormed (task_signal_init t)
unfolding task_signal_init
task_signal_init-IsWellFormed t r = record {
  stopped = λ e. absurd (ground arith);
  entries = λ i.
      let f = fresh i in
      (λ m. (f.unsignaled, f.protected m), λ u. absurd (f.not_user u), λ h. absurd (ground arith));
  flagged = λ i lo hi h. let f = fresh i in absurd (ground arith);
}
  where
    fresh : (i : ℕ) → IsFresh (install_all defaults (λ _. blank) i)
    fresh =
        install_all-IsFresh defaults (λ _. blank) defaults_fit
          (λ i. record {
            unsignaled = refl;
            not_user = λ e. absurd (ground arith);
            protected = λ e. absurd (ground arith);
          })

module _ (return_address : ℕ) where
  -- one event in the life of a task that goes on to run
  pub data Step : Task → Task → Type 0 where
    signalled : {t u : Task} (sig : ℕ) (r : Status) → signal_task t sig ≡ done (r, u) → Step t u
    installed : {t u : Task} (sig handler : ℕ) → (call_sys_signal t sig handler).1 ≡ u → Step t u
    resumed :
        {t u : Task} (esp e : ℕ) (tss : Option ℕ) (c : Option Context)
        → task_process_signal return_address (some t) esp ≡ done (resume (some u) e tss c)
        → Step t u
    left_handler :
        {t u : Task} (esp e s : ℕ)
        → return_from_pl3_signal_context t esp ≡ done (u, e, s)
        → Step t u

  pub data Reach : Task → Task → Type 0 where
    here : {t : Task} → Reach t t
    next : {t u v : Task} → Reach t u → Step u v → Reach t v

  Step-SameDisposition :
      {t u : Task} (k : ℕ)
      → Step t u
      → (t.sig_entries k).overridable ≡ false
      → SameDisposition (t.sig_entries k) (u.sig_entries k)
  Step-SameDisposition k (signalled {t} {u} sig r h) f = signal_task-SameDisposition t u sig k r h
  Step-SameDisposition k (installed {t} {u} sig handler h) f =
      ground (arith, call_sys_signal-fixed t sig handler k f)
  Step-SameDisposition k (resumed {t} {u} esp e tss c h) f =
      task_process_signal-SameDisposition return_address t u esp k e tss c h
  Step-SameDisposition k (left_handler {t} {u} esp e s h) f =
      ground (arith, handler_return-table t u esp e s h)

  -- Whatever happens to a task, a signal that is not overridable keeps its disposition: no sequence
  -- of signals, handler installations and returns changes its valid bit, its action, or the fact
  -- that it is not overridable.
  pub Reach-SameDisposition :
      {t u : Task} (k : ℕ)
      → Reach t u
      → (t.sig_entries k).overridable ≡ false
      → SameDisposition (t.sig_entries k) (u.sig_entries k)
  Reach-SameDisposition k here f = SameDisposition-refl _
  Reach-SameDisposition k (next r s) f =
      let before = Reach-SameDisposition k r f in
      let after = Step-SameDisposition k s (before.overridable ∙ f) in
      record {
        valid = after.valid ∙ before.valid;
        overridable = after.overridable ∙ before.overridable;
        action = after.action ∙ before.action;
      }

  -- SIGKILL cannot be caught or ignored: in every state that a task reaches from
  -- `task_signal_init`, it is supported, not overridable, and its action is to exit.
  pub Reach-kill :
      (t : Task) {u : Task}
      → Reach (task_signal_init t) u
      → ((u.sig_entries Sig.kill).valid ≡ true)
        × ((u.sig_entries Sig.kill).overridable ≡ false)
        × ((u.sig_entries Sig.kill).action ≡ exit)
  unfolding task_signal_init
  Reach-kill t r =
      let d = Reach-SameDisposition Sig.kill r refl in (d.valid, d.overridable, d.action)
