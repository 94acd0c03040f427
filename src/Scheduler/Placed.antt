-- ===== src/Scheduler/Placed.antt =====
-- What the walk over the blocked tasks leaves in the queues.
use zelda_os.Prelude.{
  ◌+◌, ◌≤◌, ◌≡◌, refl, sym, ap, ◌∙◌, true, List, [], ◌∷◌, ◌++◌, append-nil, append_assoc, arith,
  ◌==◌, ==_iff, done,
}
use zelda_os.Scheduler.{Scheduler, task_put, place_blocked, place_all}
use zelda_os.Scheduler.Places.{count, count-append, places, is_detached-places, task_put-run}
use zelda_os.Scheduler.Pick.{keep, is_blocked, is_zombie, is_promoted}
use zelda_os.Links.{Ptr}
use zelda_os.Task.{TaskState, zombie, running, interruptible, uninterruptible, exiting}

-- the scheduler after the walk over the blocked tasks `q`, behind those kept
abbrev pub placed : Scheduler → (kept q : List Ptr) → Scheduler
placed s kept q = record s {
  ready = s.ready ++ keep is_promoted s.tasks q;
  blocking = kept ++ keep is_blocked s.tasks q;
  zombies = s.zombies ++ keep is_zombie s.tasks q;
}

-- no task is in two of the queues, if `blocking` is the queue of the blocked ones
abbrev Apart : Scheduler → (blocking : List Ptr) → Type 0
Apart s blocking = (a : Ptr) → places (record s { blocking = blocking }) a ≤ 1

-- a task that leaves the queue of the blocked ones is detached
leaves :
    (s : Scheduler) (kept ps : List Ptr) (p : Ptr)
    → Apart s (kept ++ p ∷ ps)
    → places (record s { blocking = kept ++ ps }) p ≡ 0
leaves s kept ps p apart =
    let self : (p == p) ≡ true = (==_iff p p).1 refl in
    let h = apart p in
    let once = rw (count-append p kept (p ∷ ps), self) at h in
    rw (count-append p kept ps) (omega arith)

Apart-leaves :
    (s t : Scheduler) (kept ps : List Ptr) (p : Ptr)
    → Apart s (kept ++ p ∷ ps)
    → ((a : Ptr)
        → count a t.ready + count a t.exiting_tasks + count a t.zombies
          ≡ count a s.ready + count a s.exiting_tasks + count a s.zombies + count a (p ∷ []))
    → Apart t (kept ++ ps)
Apart-leaves s t kept ps p apart sum a =
    let h = apart a in
    let once = rw (count-append a kept (p ∷ ps)) at h in
    let e = sum a in rw (count-append a kept ps) (omega arith)

place_all-promoted :
    (s : Scheduler) (kept ps : List Ptr) (p : Ptr)
    → Apart s (kept ++ p ∷ ps)
    → (let t : Scheduler = record s { blocking = kept ++ ps; ready = s.ready ++ p ∷ [] } in
        (task_put (record s { blocking = kept ++ ps }) p ≡ done t) × Apart t (kept ++ ps))
place_all-promoted s kept ps p apart = (
  task_put-run (record s { blocking = kept ++ ps }) p (leaves s kept ps p apart),
  Apart-leaves s (record s { ready = s.ready ++ p ∷ [] }) kept ps p apart
      (λ a. rw (count-append a s.ready (p ∷ [])) (omega arith)),
)

pub place_all-placed :
    (s : Scheduler) (kept q : List Ptr)
    → s.blocking ≡ kept ++ q
    → Apart s (kept ++ q)
    → place_all s kept q ≡ done (placed s kept q)
unfolding place_all place_blocked
place_all-placed s kept [] e apart =
    simp (append-nil s.ready, append-nil s.zombies)
      (ap (λ (b : List Ptr). done (record s { blocking = b })) e)
place_all-placed s kept (p ∷ ps) e apart =
    by_state (s.tasks p).state refl (λ t kept'. place_all-placed t kept' ps)
  where
    by_state :
        (state : TaskState)
        → (s.tasks p).state ≡ state
        → ((t : Scheduler) (kept' : List Ptr)
            → t.blocking ≡ kept' ++ ps
            → Apart t (kept' ++ ps)
            → place_all t kept' ps ≡ done (placed t kept' ps))
        → place_all s kept (p ∷ ps) ≡ done (placed s kept (p ∷ ps))
    by_state running e' on =
        let (put, apart') = place_all-promoted s kept ps p apart in
        simp (
          e',
          put,
          on (record s { blocking = kept ++ ps; ready = s.ready ++ p ∷ [] }) kept refl apart',
          append_assoc s.ready (p ∷ []) (keep is_promoted s.tasks ps),
        )
    by_state exiting e' on =
        let (put, apart') = place_all-promoted s kept ps p apart in
        simp (
          e',
          put,
          on (record s { blocking = kept ++ ps; ready = s.ready ++ p ∷ [] }) kept refl apart',
          append_assoc s.ready (p ∷ []) (keep is_promoted s.tasks ps),
        )
    by_state zombie e' on = simp (
      e',
      is_detached-places (record s { blocking = kept ++ ps }) p (leaves s kept ps p apart),
      on (record s { blocking = kept ++ ps; zombies = s.zombies ++ p ∷ [] }) kept refl
          (Apart-leaves s (record s { zombies = s.zombies ++ p ∷ [] }) kept ps p apart
            (λ a. rw (count-append a s.zombies (p ∷ [])) (omega arith))),
      append_assoc s.zombies (p ∷ []) (keep is_zombie s.tasks ps),
    )
    by_state interruptible e' on = simp (
      e',
      on s (kept ++ p ∷ []) (e ∙ sym (append_assoc kept (p ∷ []) ps))
          (rw (append_assoc kept (p ∷ []) ps) apart),
      append_assoc kept (p ∷ []) (keep is_blocked s.tasks ps),
    )
    by_state uninterruptible e' on = simp (
      e',
      on s (kept ++ p ∷ []) (e ∙ sym (append_assoc kept (p ∷ []) ps))
          (rw (append_assoc kept (p ∷ []) ps) apart),
      append_assoc kept (p ∷ []) (keep is_blocked s.tasks ps),
    )
