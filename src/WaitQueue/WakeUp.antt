-- ===== src/WaitQueue/WakeUp.antt =====
-- `wake_up` wakes every task of a queue and no other.
use zelda_os.Prelude.{
  ℕ, zero, suc, ◌<◌, ◌≡◌, refl, sym, ap, ◌∙◌, ◌≢◌, inl, inr, Bool, true, false, ◌||◌, Option, none,
  some, List, [], ◌∷◌, arith, ◌==◌, if◌then◌else◌, ==_iff, Bool-cases, length, Outcome, done, panic,
  Yields,
}
use zelda_os.Links.{Ptr, null, Memory}
use zelda_os.Links.Chain.{has, first_or, Linked}
use zelda_os.Links.Shape.{IsList}
use zelda_os.Task.{
  TaskState, zombie, running, interruptible, uninterruptible, exiting, Task, transit_state,
  is_active, raw_task_wake_up,
}
use zelda_os.WaitQueue.{Tasks, put_task, wake_one, wake_from, wake_up}

-- `p` is the task of one of the entries
abbrev pub owns : (Ptr → Ptr) → Ptr → List Ptr → Bool
owns task_of p [] = false
owns task_of p (x ∷ xs) = (p == task_of x) || owns task_of p xs

-- the tasks of the entries are there, and run or wait
abbrev pub AllActive : (Ptr → Ptr) → Tasks → List Ptr → Type 0
AllActive task_of ts xs =
    (p : Ptr) → owns task_of p xs ≡ true → (p ≢ null) × (is_active (ts p).state ≡ true)

abbrev pub Woken : (Ptr → Ptr) → Tasks → List Ptr → Tasks → Type 0
Woken task_of ts xs ts' =
    (p : Ptr) → ts' p ≡ (if owns task_of p xs then record (ts p) { state = running } else ts p)

pub wake_state :
    (t : Task) (s : TaskState)
    → t.state ≡ s
    → is_active s ≡ true
    → raw_task_wake_up t ≡ done (record t { state = running })
unfolding raw_task_wake_up transit_state
wake_state t zombie e a = cc
wake_state t exiting e a = cc
wake_state t uninterruptible e a = cc
wake_state t running e a = rw e
wake_state t interruptible e a = simp e

wake_one_run :
    (ts : Tasks) (p : Ptr)
    → p ≢ null
    → is_active (ts p).state ≡ true
    → wake_one ts p ≡ done (put_task ts p (record (ts p) { state = running }))
unfolding wake_one
wake_one_run ts p some_task a =
    let n : (p == null) ≡ false = ground arith in rw (n, wake_state (ts p) (ts p).state refl a)

abbrev woken_first : (Ptr → Ptr) → Tasks → Ptr → Tasks
woken_first task_of ts x = put_task ts (task_of x) (record (ts (task_of x)) { state = running })

first_active :
    (task_of : Ptr → Ptr) (ts : Tasks) (x : Ptr) (xs : List Ptr)
    → AllActive task_of ts (x ∷ xs)
    → AllActive task_of (woken_first task_of ts x) xs
first_active task_of ts x xs all p o = elim (Bool-cases (p == task_of x)) [
  | inl e ↦ rw e ((all p (rw e)).0, refl)
  | inr ne ↦ rw ne (all p (rw (ne, o)))
]

Woken-cons :
    (task_of : Ptr → Ptr) (ts ts' : Tasks) (x : Ptr) (xs : List Ptr)
    → Woken task_of (woken_first task_of ts x) xs ts'
    → Woken task_of ts (x ∷ xs) ts'
Woken-cons task_of ts ts' x xs w p = elim (Bool-cases (p == task_of x)) [
  | inr ne ↦ rw ne (w p ∙ rw ne)
  | inl e ↦
      let same : p ≡ task_of x = (==_iff p (task_of x)).0 e in
      rw e (
        w p
        ∙ rw e (
            chosen (owns task_of p xs) (record (ts (task_of x)) { state = running }) (ts p)
              (sym (ap (λ (q : Ptr). record (ts q) { state = running }) same))))
]
  where
    chosen :
        (b : Bool) (t u : Task)
        → t ≡ record u { state = running }
        → (if b then record t { state = running } else t) ≡ record u { state = running }
    chosen true t u e = rw e
    chosen false t u e = e

Ends-mono :
    (o : Option (Outcome Tasks)) (P Q : Tasks → Type 0)
    → Yields o P
    → ((ts : Tasks) → P ts → Q ts)
    → Yields o Q
Ends-mono none P Q h k = absurd h
Ends-mono (some (done ts)) P Q h k = k ts h
Ends-mono (some panic) P Q h k = absurd h

wake_from-Woken :
    (fuel : ℕ) (m : Memory) (task_of : Ptr → Ptr) (p : Ptr) (xs : List Ptr) (ts : Tasks)
    → Linked m p xs null
    → has null xs ≡ false
    → length xs < fuel
    → AllActive task_of ts xs
    → Yields (wake_from fuel m task_of (first_or xs null) ts) (Woken task_of ts xs)
unfolding wake_from
wake_from-Woken zero m task_of p xs ts l n f all = absurd (omega arith)
wake_from-Woken (suc fuel) m task_of p [] ts l n f all = λ q. refl
wake_from-Woken (suc fuel) m task_of p (x ∷ xs) ts l n f all =
    let some_x : (x == null) ≡ false = ground arith in
    let (some_task, active) = all (task_of x) (ground arith) in
    rw (some_x, l.1, wake_one_run ts (task_of x) some_task active)
      (Ends-mono (wake_from fuel m task_of (first_or xs null) (woken_first task_of ts x))
        (Woken task_of (woken_first task_of ts x) xs) (Woken task_of ts (x ∷ xs))
        (wake_from-Woken fuel m task_of x xs (woken_first task_of ts x) l.2 (ground arith)
          (omega arith) (first_active task_of ts x xs all))
        (λ ts' w. Woken-cons task_of ts ts' x xs w))

-- With more fuel than the queue has entries, `wake_up` walks the whole queue, and does not panic
-- if the tasks of its entries run or are interruptible. Each of these tasks is RUNNING afterwards
-- and otherwise as it was, and no other task is touched.
pub wake_up-Woken :
    (fuel : ℕ) (m : Memory) (task_of : Ptr → Ptr) (h : Ptr) (xs : List Ptr) (ts : Tasks)
    → IsList m h xs
    → length xs < fuel
    → AllActive task_of ts xs
    → Yields (wake_up fuel m task_of h ts) (Woken task_of ts xs)
unfolding wake_up
wake_up-Woken fuel m task_of h xs ts l f all =
    rw l.first
      (wake_from-Woken fuel m task_of null xs ts l.links (let n = l.nonnull in ground arith) f all)
