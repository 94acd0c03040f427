-- ===== src/Links/Shape.antt =====
-- When memory holds a list behind a head.
use zelda_os.Prelude.{◌≡◌, refl, ◌≢◌, ◌↔◌, true, false, List, [], ◌∷◌, arith}
use zelda_os.Links.{Ptr, null, Memory, set_prev, set_next, list_init, list_empty}
use zelda_os.Links.Chain.{has, Distinct, first_or, last_or, Linked, Linked-frame}

-- the head at `h` holds exactly the nodes `xs`, in order
pub record IsList (m : Memory) (h : Ptr) (xs : List Ptr) : Type 0 where
  pub apart : Distinct (h ∷ xs)
  pub nonnull : has null (h ∷ xs) ≡ false
  pub first : (m h).next ≡ first_or xs null
  pub last : (m h).prev ≡ last_or null xs
  pub links : Linked m null xs null

-- a node that is in no list
pub record IsDetached (m : Memory) (e : Ptr) : Type 0 where
  pub no_prev : (m e).prev ≡ null
  pub no_next : (m e).next ≡ null

-- `n` differs from `m` at most at the nodes of `zs`
abbrev pub SameOff : List Ptr → Memory → Memory → Type 0
SameOff zs m n = (a : Ptr) → has a zs ≡ false → n a ≡ m a

-- `list_init` makes an empty list.
pub list_init-IsList : (m : Memory) (h : Ptr) → h ≢ null → IsList (list_init m h) h []
unfolding list_init set_prev set_next
list_init-IsList m h some_head = record {
  apart = (refl, tt);
  nonnull = ground arith;
  first = ground arith;
  last = ground arith;
  links = tt;
}

-- `list_empty` says whether there is a node.
pub list_empty_iff :
    (m : Memory) (h : Ptr) (xs : List Ptr) → IsList m h xs → (list_empty m h ≡ true) ↔ (xs ≡ [])
unfolding list_empty
list_empty_iff m h [] l = (λ e. refl, λ e. rw l.first)
list_empty_iff m h (x ∷ xs) l =
    let out = l.nonnull in
    let first = l.first in (λ e. absurd (ground arith), λ e. absurd (ground arith))

-- A list is not touched by writes elsewhere.
pub IsList-frame :
    (m n : Memory) (h : Ptr) (xs zs : List Ptr)
    → SameOff zs m n
    → ((a : Ptr) → has a (h ∷ xs) ≡ true → has a zs ≡ false)
    → IsList m h xs
    → IsList n h xs
IsList-frame m n h xs zs same off l = record {
  apart = l.apart;
  nonnull = l.nonnull;
  first = let here = same h (off h (ground arith)) in rw here l.first;
  last = let here = same h (off h (ground arith)) in rw here l.last;
  links = Linked-frame m n null xs null (λ a i. same a (off a (ground arith))) l.links;
}

-- an address outside a list that is to be put into it
pub record IsNew (m : Memory) (h e : Ptr) (xs : List Ptr) : Type 0 where
  pub detached : IsDetached m e
  pub outside : has e (h ∷ xs) ≡ false
  pub nonnull : e ≢ null

-- what an insertion leaves: the list with the node, and all else as it was
abbrev pub Inserted : Memory → Ptr → Ptr → List Ptr → List Ptr → Memory → Type 0
Inserted m h e xs ys n = IsList n h ys × SameOff (h ∷ e ∷ xs) m n

-- what a removal leaves: the list without the node, the node detached, and all else as it was
abbrev pub Removed : Memory → Ptr → Ptr → List Ptr → List Ptr → Memory → Type 0
Removed m h e xs ys n = IsList n h ys × IsDetached n e × SameOff (h ∷ xs) m n
