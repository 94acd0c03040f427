-- ===== src/Scheduler/Exits.antt =====
-- `process_exit_task_list` reclaims the exiting tasks and wakes the tasks that wait for them.
use zelda_os.Prelude.{
  ◌+◌, ◌≤◌, ◌≡◌, refl, ap, ◌∙◌, ◌≢◌, inl, inr, Bool, true, false, ◌||◌, List, [], ◌∷◌, arith, ◌==◌,
  if◌then◌else◌, ==_iff, Bool-cases, done,
}
use zelda_os.Scheduler.{Scheduler, is_detached, wake_all, is_exiting, exit_all}
use zelda_os.Scheduler.Places.{count, is_detached-places}
use zelda_os.Links.{Ptr, null}
use zelda_os.Links.Chain.{has}
use zelda_os.Task.{running, exiting, Task, is_active}
use zelda_os.WaitQueue.{Tasks, put_task}
use zelda_os.WaitQueue.WakeUp.{wake_state}
use mathlib.Core.Path.{fun_ext}

-- the tasks of a set made RUNNING
abbrev pub woken : (Ptr → Bool) → Tasks → Tasks
woken who ts a = if who a then record (ts a) { state = running } else ts a

-- the tasks are there and active
abbrev pub AreActive : Tasks → List Ptr → Type 0
AreActive ts ps = (p : Ptr) → has p ps ≡ true → (p ≢ null) × (is_active (ts p).state ≡ true)

active_kept :
    (who : Ptr → Bool) (ts : Tasks) (a : Ptr)
    → is_active (ts a).state ≡ true
    → is_active (woken who ts a).state ≡ true
active_kept who ts a h = elim (Bool-cases (who a)) [ inl e ↦ rw e | inr n ↦ rw n h ]

woken-one :
    (ts : Tasks) (p : Ptr)
    → put_task ts p (record (ts p) { state = running }) ≡ woken (λ a. a == p) ts
woken-one ts p =
    fun_ext (λ a. elim (Bool-cases (a == p)) [ inl e ↦ rw ((==_iff a p).0 e) | inr n ↦ rw n ])

woken-woken :
    (who other : Ptr → Bool) (ts : Tasks)
    → woken who (woken other ts) ≡ woken (λ a. other a || who a) ts
woken-woken who other ts = fun_ext (λ a. by_case (who a) (other a) (ts a))
  where
    by_case :
        (b c : Bool) (t : Task)
        → (let u : Task = if c then record t { state = running } else t in
            if b then record u { state = running } else u)
          ≡ (if c || b then record t { state = running } else t)
    by_case true true t = refl
    by_case true false t = refl
    by_case false true t = refl
    by_case false false t = refl

wake_all-woken :
    (ts : Tasks) (ps : List Ptr)
    → AreActive ts ps
    → wake_all ts ps ≡ done (woken (λ a. has a ps) ts)
unfolding wake_all
wake_all-woken ts [] all = refl
wake_all-woken ts (p ∷ ps) all =
    let self : (p == p) ≡ true = (==_iff p p).1 refl in
    let (some_p, active) = all p (rw self) in
    let present : (p == null) ≡ false = ground arith in
    rw (present, wake_state (ts p) (ts p).state refl active, woken-one ts p)
      (wake_all-woken (woken (λ a. a == p) ts) ps
          (λ a i. let (n, act) = all a (ground arith) in (n, active_kept (λ b. b == p) ts a act))
        ∙ ap done (woken-woken (λ a. has a ps) (λ a. a == p) ts))

-- whether a task waits for one of the queue
abbrev pub waits : (Ptr → List Ptr) → List Ptr → Ptr → Bool
waits waiters [] a = false
waits waiters (p ∷ ps) a = has a (waiters p) || waits waiters ps a

-- the tasks of the exit queue are EXITING, and the tasks that wait for them are active
abbrev pub CanExit : (Ptr → List Ptr) → Tasks → List Ptr → Type 0
CanExit waiters ts ps =
    (p : Ptr) → has p ps ≡ true → ((ts p).state ≡ exiting) × AreActive ts (waiters p)

-- the tasks of the queue reclaimed in turn, the last one first
abbrev pub reclaim : List Ptr → List Ptr → List Ptr
reclaim [] gone = gone
reclaim (p ∷ ps) gone = reclaim ps (p ∷ gone)

-- a task of the exit queue waits for none
exiting_waits_not :
    (ts : Tasks) (a : Ptr) (ps : List Ptr)
    → (ts a).state ≡ exiting
    → AreActive ts ps
    → has a ps ≡ false
exiting_waits_not ts a ps e active = elim (Bool-cases (has a ps)) [
  | inr n ↦ n
  | inl i ↦ absurd (let w : is_active exiting ≡ true = rw e at (active a i).1 in ground arith)
]

CanExit-woken :
    (waiters : Ptr → List Ptr) (ts : Tasks) (p : Ptr) (ps : List Ptr)
    → CanExit waiters ts (p ∷ ps)
    → CanExit waiters (woken (λ a. has a (waiters p)) ts) ps
CanExit-woken waiters ts p ps all q i =
    let self : (p == p) ≡ true = (==_iff p p).1 refl in
    let active = (all p (rw self)).1 in
    let (x, act) = all q (ground arith) in
    (
      rw (exiting_waits_not ts q (waiters p) x active) x,
      λ w j. let (n, h) = act w j in (n, active_kept (λ a. has a (waiters p)) ts w h),
    )

-- the scheduler after the loop over the exit queue `q`
abbrev pub exited : (Ptr → List Ptr) → Scheduler → List Ptr → Scheduler
exited waiters s q = record s {
  tasks = woken (waits waiters q) s.tasks;
  exiting_tasks = [];
  reclaimed = reclaim q s.reclaimed;
}

pub exit_all-exited :
    (waiters : Ptr → List Ptr) (s : Scheduler) (q : List Ptr)
    → s.exiting_tasks ≡ q
    → CanExit waiters s.tasks q
    → ((a : Ptr) → count a s.ready + count a s.blocking + count a q + count a s.zombies ≤ 1)
    → exit_all waiters s q ≡ done (exited waiters s q)
unfolding exit_all is_exiting
exit_all-exited waiters s [] e all apart =
    ap (λ (x : List Ptr). done (record s { exiting_tasks = x })) e
exit_all-exited waiters s (p ∷ ps) e all apart =
    let self : (p == p) ≡ true = (==_iff p p).1 refl in
    let (x, active) = all p (rw self) in
    let once = apart p in
    let once' : count p s.ready + count p s.blocking + (1 + count p ps) + count p s.zombies ≤ 1 =
      rw self at once in
    let alone : is_detached (record s { exiting_tasks = ps }) p ≡ true =
      is_detached-places (record s { exiting_tasks = ps }) p (omega arith) in
    rw (x, wake_all-woken s.tasks (waiters p) active, alone)
      (exit_all-exited waiters
          (record s {
            tasks = woken (λ a. has a (waiters p)) s.tasks;
            exiting_tasks = ps;
            reclaimed = p ∷ s.reclaimed;
          })
          ps refl (CanExit-woken waiters s.tasks p ps all) (λ a. let h = apart a in omega arith)
        ∙ ap (λ (ts : Tasks). done (record (exited waiters s (p ∷ ps)) { tasks = ts }))
            (woken-woken (waits waiters ps) (λ a. has a (waiters p)) s.tasks))
