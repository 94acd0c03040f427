-- ===== src/Links.antt =====
-- lib/list.c and lib/include/list.h: doubly linked lists whose nodes live inside other structures.
-- Memory is what each address holds as a `struct list_elem`; `LIST_FOREACH` walks run on fuel, and
-- `none` means that it ran out. A failed ASSERT is `panic`.
pub mod Chain
pub mod Shape
pub mod Append
pub mod Prepend
pub mod Cut
pub mod Fetch
pub mod Pop
pub mod Walk
pub mod Delete
mod Tests
use zelda_os.Prelude.{
  ℕ, zero, suc, Bool, true, false, not, ◌&&◌, Option, none, some, map, ◌==◌, if◌then◌else◌, Outcome,
  done, ◌>>=◌, ◌>>◌, ensure,
}
use mathlib.Core.Option

abbrev pub Ptr : Type 0
Ptr = ℕ

abbrev pub null : Ptr
null = 0

pub record Elem : Type 0 where
  pub prev : Ptr
  pub next : Ptr

abbrev pub Memory : Type 0
Memory = Ptr → Elem

unfoldable pub set_prev : Memory → Ptr → Ptr → Memory
set_prev m p v a = if a == p then record (m a) { prev = v } else m a

unfoldable pub set_next : Memory → Ptr → Ptr → Memory
set_next m p v a = if a == p then record (m a) { next = v } else m a

unfoldable pub list_init : Memory → Ptr → Memory
unfolding set_prev set_next
list_init m head = set_next (set_prev m head null) head null

unfoldable pub list_empty : Memory → Ptr → Bool
list_empty m head = (m head).next == null

-- `list_node_detached`
unfoldable pub list_node_detached : Memory → Ptr → Ptr → Bool
list_node_detached m head node =
    ((m node).prev == null) && ((m node).next == null) && not ((m head).next == node)

pub list_append : Memory → Ptr → Ptr → Outcome Memory
list_append m head elem = do
  ensure ((m elem).prev == null)
  ensure ((m elem).next == null)
  let m₁ = if (m head).next == null then set_next m head elem else m
  let tail = (m₁ head).prev
  let m₂ = if tail == null then m₁ else set_next (set_prev m₁ elem tail) tail elem
  done (set_prev m₂ head elem)

pub list_prepend : Memory → Ptr → Ptr → Outcome Memory
list_prepend m head elem = do
  ensure ((m elem).prev == null)
  ensure ((m elem).next == null)
  let old = (m head).next
  let m₁ = if old == null then m else set_prev (set_next m elem old) old elem
  let m₂ = set_next m₁ head elem
  done (if (m₂ head).prev == null then set_prev m₂ head elem else m₂)

-- Takes the last element; null if there is none.
pub list_pop : Memory → Ptr → Outcome (Ptr × Memory)
list_pop m head = if list_empty m head then done (null, m) else (do
  ensure (not ((m head).prev == null))
  let e = (m head).prev
  let before = (m e).prev
  let m₁ = set_prev m head before
  let m₂ = if before == null then set_next m₁ head null else set_next m₁ before null
  let m₃ = set_prev m₂ e null
  ensure ((m₃ e).next == null)
  done (e, m₃))

-- Takes the first element; null if there is none.
pub list_fetch : Memory → Ptr → Outcome (Ptr × Memory)
list_fetch m head = if list_empty m head then done (null, m) else (do
  ensure (not ((m head).prev == null))
  let e = (m head).next
  let after = (m e).next
  let m₁ = set_next m head after
  let m₂ = if after == null then set_prev m₁ head null else set_prev m₁ after null
  let m₃ = set_next m₂ e null
  ensure ((m₃ e).prev == null)
  done (e, m₃))

-- LIST_FOREACH with a body that stops at `elem`
pub found_from : ℕ → Memory → (cursor elem : Ptr) → Option Bool
found_from zero m cursor elem = none
found_from (suc fuel) m cursor elem =
    let rest = found_from fuel m (m cursor).next elem in
    if cursor == null then some false else if cursor == elem then some true else rest

unlink : Memory → Ptr → Ptr → Outcome Memory
unlink m head elem = do
  m₁ ←
      (if (m head).prev == elem
        then (do ensure ((m elem).next == null); done (set_prev m head (m elem).prev))
        else done m)
  m₂ ←
      (if (m₁ head).next == elem
        then (do ensure ((m₁ elem).prev == null); done (set_next m₁ head (m₁ elem).next))
        else done m₁)
  let after = (m₂ elem).next
  let m₃ = if after == null then m₂ else set_prev m₂ after (m₂ elem).prev
  let before = (m₃ elem).prev
  let m₄ = if before == null then m₃ else set_next m₃ before (m₃ elem).next
  done (set_next (set_prev m₄ elem null) elem null)

pub list_delete : ℕ → Memory → Ptr → Ptr → Option (Outcome Memory)
unfolding unlink
list_delete fuel m head elem =
    Option.map (λ found. ensure found >> unlink m head elem) (found_from fuel m (m head).next elem)

pub element_in_list : ℕ → Memory → Ptr → Ptr → Option Bool
element_in_list fuel m head elem =
    if ((m elem).next == null)
      && ((m elem).prev == null)
      && not ((m head).next == elem)
      && not ((m head).prev == elem)
    then some false
    else found_from fuel m (m head).next elem
