-- ===== src/Scheduler/Pick.antt =====
-- What the two passes over a queue leave in the queues.
use zelda_os.Prelude.{
  ◌+◌, ◌≤◌, ◌≡◌, refl, Bool, true, false, List, [], ◌∷◌, ◌++◌, append-nil, append_assoc, arith,
  ◌==◌, if◌then◌else◌, ==_iff, done,
}
use zelda_os.Scheduler.{Scheduler, is_detached, put_aside, is_running, pick_from}
use zelda_os.Scheduler.Places.{count, count-append, places, is_detached-places}
use zelda_os.Links.{Ptr}
use zelda_os.Task.{TaskState, zombie, running, interruptible, uninterruptible, exiting}
use zelda_os.WaitQueue.{Tasks}

-- the tasks of a queue whose state passes the test
abbrev pub keep : (TaskState → Bool) → Tasks → List Ptr → List Ptr
keep test ts [] = []
keep test ts (p ∷ ps) = if test (ts p).state then p ∷ keep test ts ps else keep test ts ps

abbrev pub is_blocked : TaskState → Bool
is_blocked interruptible = true
is_blocked uninterruptible = true
is_blocked _ = false

abbrev pub is_zombie : TaskState → Bool
is_zombie zombie = true
is_zombie _ = false

-- RUNNING and EXITING tasks leave the queue of the blocked ones
abbrev pub is_promoted : TaskState → Bool
is_promoted running = true
is_promoted exiting = true
is_promoted _ = false

abbrev pub runs : TaskState → Bool
runs running = true
runs _ = false

abbrev pub exits : TaskState → Bool
exits exiting = true
exits _ = false

abbrev pub first_running : Tasks → List Ptr → Ptr → Ptr
first_running ts [] idle = idle
first_running ts (p ∷ ps) idle = if runs (ts p).state then p else first_running ts ps idle

-- the tasks before the first running one, and those behind it
abbrev pub skipped : Tasks → List Ptr → List Ptr
skipped ts [] = []
skipped ts (p ∷ ps) = if runs (ts p).state then [] else p ∷ skipped ts ps

abbrev pub behind : Tasks → List Ptr → List Ptr
behind ts [] = []
behind ts (p ∷ ps) = if runs (ts p).state then ps else behind ts ps

-- the scheduler after the loop of `schedule` over the ready queue `q`
abbrev pub picked : Scheduler → List Ptr → Scheduler
picked s q = record s {
  ready = behind s.tasks q;
  blocking = s.blocking ++ keep is_blocked s.tasks (skipped s.tasks q);
  exiting_tasks = s.exiting_tasks ++ keep exits s.tasks (skipped s.tasks q);
  zombies = s.zombies ++ keep is_zombie s.tasks (skipped s.tasks q);
  current = first_running s.tasks q s.idle;
}

aside :
    (s : Scheduler) (p : Ptr) (ps : List Ptr)
    → ((a : Ptr) → places (record s { ready = p ∷ ps }) a ≤ 1)
    → is_detached (record s { ready = ps }) p ≡ true
aside s p ps apart =
    let self : (p == p) ≡ true = (==_iff p p).1 refl in
    let h = apart p in
    let once : (1 + count p ps) + count p s.blocking + count p s.exiting_tasks + count p s.zombies
        ≤ 1 =
      rw self at h in
    is_detached-places (record s { ready = ps }) p (omega arith)

pub pick_from-picked :
    (s : Scheduler) (q : List Ptr)
    → ((a : Ptr) → places (record s { ready = q }) a ≤ 1)
    → pick_from s q ≡ done (picked s q)
unfolding pick_from is_running put_aside
pick_from-picked s [] apart =
    simp (append-nil s.blocking, append-nil s.exiting_tasks, append-nil s.zombies)
pick_from-picked s (p ∷ ps) apart =
    by_state (s.tasks p).state refl (aside s p ps apart) (λ t. pick_from-picked t ps)
  where
    by_state :
        (state : TaskState)
        → (s.tasks p).state ≡ state
        → is_detached (record s { ready = ps }) p ≡ true
        → ((t : Scheduler)
            → ((a : Ptr) → places (record t { ready = ps }) a ≤ 1)
            → pick_from t ps ≡ done (picked t ps))
        → pick_from s (p ∷ ps) ≡ done (picked s (p ∷ ps))
    by_state running e alone on =
        simp (e, append-nil s.blocking, append-nil s.exiting_tasks, append-nil s.zombies)
    by_state exiting e alone on = simp (
      e,
      alone,
      on (record s { ready = ps; exiting_tasks = s.exiting_tasks ++ p ∷ [] })
          (λ a. let h = apart a in rw (count-append a s.exiting_tasks (p ∷ [])) (omega arith)),
      append_assoc s.exiting_tasks (p ∷ []) (keep exits s.tasks (skipped s.tasks ps)),
    )
    by_state zombie e alone on = simp (
      e,
      alone,
      on (record s { ready = ps; zombies = s.zombies ++ p ∷ [] })
          (λ a. let h = apart a in rw (count-append a s.zombies (p ∷ [])) (omega arith)),
      append_assoc s.zombies (p ∷ []) (keep is_zombie s.tasks (skipped s.tasks ps)),
    )
    by_state interruptible e alone on = simp (
      e,
      alone,
      on (record s { ready = ps; blocking = s.blocking ++ p ∷ [] })
          (λ a. let h = apart a in rw (count-append a s.blocking (p ∷ [])) (omega arith)),
      append_assoc s.blocking (p ∷ []) (keep is_blocked s.tasks (skipped s.tasks ps)),
    )
    by_state uninterruptible e alone on = simp (
      e,
      alone,
      on (record s { ready = ps; blocking = s.blocking ++ p ∷ [] })
          (λ a. let h = apart a in rw (count-append a s.blocking (p ∷ [])) (omega arith)),
      append_assoc s.blocking (p ∷ []) (keep is_blocked s.tasks (skipped s.tasks ps)),
    )
