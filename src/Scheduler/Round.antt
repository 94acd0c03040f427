-- ===== src/Scheduler/Round.antt =====
-- One call of `schedule`.
use zelda_os.Prelude.{
  ℕ, ◌+◌, ◌≤◌, ◌≡◌, refl, ap, ◌≢◌, inl, inr, true, false, List, [], ◌∷◌, ◌++◌, append-nil, arith,
  ◌==◌, ==_iff, Bool-cases, done, bind_run,
}
use zelda_os.Scheduler.{
  Scheduler, process_blocking_task_list, process_exit_task_list, pick_from, put_current, schedule,
}
use zelda_os.Scheduler.Places.{count, count-append, places, task_put-run}
use zelda_os.Scheduler.Pick.{first_running, pick_from-picked}
use zelda_os.Scheduler.Placed.{placed, place_all-placed}
use zelda_os.Scheduler.Exits.{CanExit, exit_all-exited}
use zelda_os.Scheduler.Orderly.{
  IsOrderly, outgoing, candidates, settled, places-settled, outgoing-null, scheduled,
  places-scheduled,
}
use zelda_os.Links.{Ptr, null}
use zelda_os.WaitQueue.{Tasks}

put_current-run :
    (s : Scheduler)
    → ((a : Ptr) → places s a + count a (outgoing s) ≤ 1)
    → put_current s ≡ done (record s { ready = s.ready ++ outgoing s; current = null })
unfolding put_current
put_current-run s apart = elim (Bool-cases (s.current == null)) [
  | inl none_now ↦
      let e : s.current ≡ null = (==_iff s.current null).0 none_now in
      simp (none_now, append-nil s.ready) (ap (λ (c : Ptr). done (record s { current = c })) e)
  | inr some_now ↦ elim (Bool-cases (s.current == s.idle)) [
    | inl idle_now ↦ simp (some_now, idle_now, append-nil s.ready)
    | inr other ↦
        let self : (s.current == s.current) ≡ true = (==_iff s.current s.current).1 refl in
        let h = apart s.current in
        let once = rw (some_now, other, self) at h in
        simp (some_now, other, task_put-run s s.current (omega arith))
  ]
]

first_running_some :
    (ts : Tasks) (q : List Ptr) (idle : Ptr)
    → count null q ≡ 0
    → idle ≢ null
    → (first_running ts q idle == null) ≡ false
first_running_some ts [] idle none_in some_idle = ground arith
first_running_some ts (p ∷ ps) idle none_in some_idle =
    ground (arith, first_running_some ts ps idle)

-- the scheduler after the two steps before the exit queue is processed
abbrev put_away : Scheduler → Scheduler
put_away s = record s { ready = s.ready ++ outgoing s; current = null }

abbrev unblocked : Scheduler → Scheduler
unblocked s = placed (put_away s) [] s.blocking

-- what `schedule` returns, with the scheduler
abbrev pub resumed : Scheduler → ℕ × Scheduler
resumed r = ((r.tasks r.current).cpu, r)

schedule-run :
    (waiters : Ptr → List Ptr) (s : Scheduler)
    → IsOrderly s
    → CanExit waiters s.tasks s.exiting_tasks
    → schedule waiters s ≡ done (resumed (scheduled waiters s))
unfolding schedule process_blocking_task_list process_exit_task_list
schedule-run waiters s ok can_exit =
    bind_run (put_current s) _ (put_away s) _ (put_current-run s ok.apart) (
      bind_run (process_blocking_task_list (put_away s)) _ (unblocked s) _
        (place_all-placed (put_away s) [] s.blocking refl
          (λ a. let h = ok.apart a in rw (count-append a s.ready (outgoing s)) (omega arith)))
        (bind_run (process_exit_task_list waiters (unblocked s)) _ (settled waiters s) _
          (exit_all-exited waiters (unblocked s) s.exiting_tasks refl can_exit
            (λ a. let h = ok.apart a in let e = places-settled waiters s a in omega arith))
          (bind_run (pick_from (settled waiters s) (candidates s)) _ (scheduled waiters s) _
            (pick_from-picked (settled waiters s) (candidates s)
              (λ a. let h = ok.apart a in let e = places-settled waiters s a in omega arith))
            (let none_in = places-settled waiters s null in
              let none_out = outgoing-null s in
              let none_now = ok.no_null in
              rw
                (first_running_some (settled waiters s).tasks (candidates s) s.idle (omega arith)
                  ok.some_idle)
                refl))))

-- If no task stands in two queues or twice in one, the task that runs stands in none, NULL stands in
-- none, there is an idle task, the tasks of the exit queue are EXITING and the tasks that wait for
-- them are RUNNING or interruptible, then none of these ASSERTs of `schedule` fails: that a task that
-- is put into a queue or reclaimed is detached, that a task of the exit queue is EXITING, those of the
-- wake-ups, and that there is a current task in the end. Its result is this. The exit queue is
-- reclaimed in order, each task that waits for one of it is RUNNING, and no other task is changed.
-- The first RUNNING task is current among the ready tasks, then the task that ran, then the blocked
-- tasks that can go on, or the idle task if none is RUNNING; the tasks passed over go to the ends of
-- the queues of their states, in order, and those behind stay ready. The stack pointer returned is
-- that of the current task. What was assumed of the queues, of NULL and of the idle task holds again.
pub schedule-scheduled :
    (waiters : Ptr → List Ptr) (s : Scheduler)
    → IsOrderly s
    → CanExit waiters s.tasks s.exiting_tasks
    → (schedule waiters s ≡ done (resumed (scheduled waiters s))) × IsOrderly (scheduled waiters s)
schedule-scheduled waiters s ok can_exit = (
  schedule-run waiters s ok can_exit,
  record {
    apart = λ a. let h = places-scheduled waiters s a in let o = ok.apart a in omega arith;
    no_null =
        let h = places-scheduled waiters s null in
        let o = ok.no_null in let n = outgoing-null s in omega arith;
    some_idle = ok.some_idle;
  },
)
