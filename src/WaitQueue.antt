-- ===== src/WaitQueue.antt =====
-- kernel/wait_queue.c: queues of tasks that wait for an event. A queue is a list of lib/list.c whose
-- nodes are embedded in the entries; `task_of` is the task of the entry around a node, and `none`
-- means that a walk ran out of fuel.
pub mod Members
pub mod WakeUp
mod Tests
use zelda_os.Prelude.{
  ℕ, zero, suc, not, Option, none, some, ◌==◌, if◌then◌else◌, Outcome, done, panic, ◌>>=◌, ◌>>◌,
  ensure,
}
use zelda_os.Links.{Ptr, null, Memory, list_init, list_append, list_delete, element_in_list}
use zelda_os.Task.{Task, raw_task_wake_up}

unfoldable pub initialize_wait_queue_head : Memory → Ptr → Memory
initialize_wait_queue_head m head = list_init m head

unfoldable pub initialize_wait_queue_entry : Memory → (Ptr → Ptr) → Ptr → Ptr → Memory × (Ptr → Ptr)
initialize_wait_queue_entry m task_of entry task =
    (list_init m entry, λ e. if e == entry then task else task_of e)

pub add_wait_queue_entry : ℕ → Memory → Ptr → Ptr → Option (Outcome Memory)
add_wait_queue_entry fuel m head entry = elim (element_in_list fuel m head entry) [
  | none ↦ none
  | some found ↦ some (if found then done m else list_append m head entry)
]

pub remove_wait_queue_entry : ℕ → Memory → Ptr → Ptr → Option (Outcome Memory)
remove_wait_queue_entry fuel m head entry = elim (element_in_list fuel m head entry) [
  | none ↦ none
  | some found ↦ if found then list_delete fuel m head entry else some (done m)
]

abbrev pub Tasks : Type 0
Tasks = Ptr → Task

abbrev pub put_task : Tasks → Ptr → Task → Tasks
put_task ts p t a = if a == p then t else ts a

wake_one : Tasks → Ptr → Outcome Tasks
wake_one ts p = do ensure (not (p == null)); t ← raw_task_wake_up (ts p); done (put_task ts p t)

wake_rest : Outcome Tasks → (Tasks → Option (Outcome Tasks)) → Option (Outcome Tasks)
wake_rest (done ts) rest = rest ts
wake_rest panic rest = some panic

wake_from : ℕ → Memory → (Ptr → Ptr) → Ptr → Tasks → Option (Outcome Tasks)
unfolding wake_one wake_rest
wake_from zero m task_of cursor ts = none
wake_from (suc fuel) m task_of cursor ts =
    let on = wake_rest (wake_one ts (task_of cursor)) (wake_from fuel m task_of (m cursor).next) in
    if cursor == null then some (done ts) else on

pub wake_up : ℕ → Memory → (Ptr → Ptr) → Ptr → Tasks → Option (Outcome Tasks)
unfolding wake_from
wake_up fuel m task_of head ts = wake_from fuel m task_of (m head).next ts
