-- ===== src/Scheduler/Places.antt =====
-- How often a task stands in the queues, and when its links are null.
use zelda_os.Prelude.{
  ℕ, ◌+◌, ◌≡◌, refl, true, false, List, [], ◌∷◌, ◌++◌, arith, ◌==◌, if◌then◌else◌, done,
}
use zelda_os.Scheduler.{Scheduler, is_linked, is_detached, task_put}
use zelda_os.Links.{Ptr}
use zelda_os.Links.Chain.{has}

abbrev pub count : Ptr → List Ptr → ℕ
count a [] = 0
count a (x ∷ xs) = (if a == x then 1 else 0) + count a xs

pub count-append : (a : Ptr) (xs ys : List Ptr) → count a (xs ++ ys) ≡ count a xs + count a ys
count-append a [] ys = omega arith
count-append a (x ∷ xs) ys = ground (arith, count-append a xs ys)

pub has-count : (a : Ptr) (xs : List Ptr) → count a xs ≡ 0 → has a xs ≡ false
has-count a [] e = refl
has-count a (x ∷ xs) e = ground (arith, has-count a xs)

is_linked-count : (a : Ptr) (xs : List Ptr) → count a xs ≡ 0 → is_linked a xs ≡ false
unfolding is_linked
is_linked-count a xs e = rw (has-count a xs e)

-- the queues together
abbrev pub places : Scheduler → Ptr → ℕ
places s a = count a s.ready + count a s.blocking + count a s.exiting_tasks + count a s.zombies

pub is_detached-places : (s : Scheduler) (a : Ptr) → places s a ≡ 0 → is_detached s a ≡ true
unfolding is_detached
is_detached-places s a e =
    rw
      (
        is_detached,
        is_linked-count a s.ready (omega arith),
        is_linked-count a s.blocking (omega arith),
        is_linked-count a s.exiting_tasks (omega arith),
        is_linked-count a s.zombies (omega arith),
      )
      refl

pub task_put-run :
    (s : Scheduler) (a : Ptr)
    → places s a ≡ 0
    → task_put s a ≡ done (record s { ready = s.ready ++ a ∷ [] })
unfolding task_put
task_put-run s a e = rw (is_detached-places s a e)
