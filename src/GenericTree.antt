-- ===== src/GenericTree.antt =====
-- lib/generic_tree.c: trees of any width as binary trees. `left` of a node is its first child,
-- `right` the next sibling, and `parent` the node that points at it. Walks run on fuel.
pub mod Children
pub mod Delete
mod Tests
use zelda_os.Prelude.{
  ℕ, zero, suc, not, Option, none, some, ◌==◌, if◌then◌else◌, Outcome, done, ◌>>=◌, ◌>>◌, ensure,
}
use zelda_os.Status.{Status, ok, err_invalid_arg}
use zelda_os.Links.{Ptr, null}

-- struct binary_tree_node without its list node
pub record TreeNode : Type 0 where
  pub parent : Ptr
  pub left : Ptr
  pub right : Ptr

abbrev pub TreeMemory : Type 0
TreeMemory = Ptr → TreeNode

unfoldable pub set_parent : TreeMemory → Ptr → Ptr → TreeMemory
set_parent m p v a = if a == p then record (m a) { parent = v } else m a

unfoldable pub set_left : TreeMemory → Ptr → Ptr → TreeMemory
set_left m p v a = if a == p then record (m a) { left = v } else m a

unfoldable pub set_right : TreeMemory → Ptr → Ptr → TreeMemory
set_right m p v a = if a == p then record (m a) { right = v } else m a

-- the two assignments at the end of `generic_delete_node`
unfoldable pub clear_node : TreeMemory → Ptr → TreeMemory
unfolding set_parent set_right
clear_node m node = set_parent (set_right m node null) node null

-- the branch for a node that is its parent's first child
unfoldable pub bypass_left : TreeMemory → Ptr → TreeMemory
unfolding set_parent set_left
bypass_left m node =
    let r = (m node).right in
    let m₁ = if r == null then m else set_parent m r (m node).parent in
    set_left m₁ (m₁ node).parent (m₁ node).right

-- the branch for a later sibling
unfoldable pub bypass_right : TreeMemory → Ptr → TreeMemory
unfolding set_parent set_right
bypass_right m node =
    let r = (m node).right in
    let m₁ = if r == null then m else set_parent m r r in
    set_right m₁ (m₁ node).parent (m₁ node).right

unfoldable pub generic_delete_node : TreeMemory → Ptr → Outcome (Status × TreeMemory)
unfolding bypass_left bypass_right clear_node
generic_delete_node m node = do
  ensure (not ((m node).parent == null))
  if (m (m node).parent).left == node then done (ok, clear_node (bypass_left m node) node) else (do
    ensure ((m (m node).parent).right == node)
    done (ok, clear_node (bypass_right m node) node))

-- the last sibling from `p` on
pub last_sibling : ℕ → TreeMemory → Ptr → Option Ptr
last_sibling zero m p = none
last_sibling (suc fuel) m p =
    let on = last_sibling fuel m (m p).right in if (m p).right == null then some p else on

pub add_sibling : ℕ → TreeMemory → Ptr → (node : Ptr) → Option (Status × TreeMemory)
unfolding last_sibling set_parent set_right
add_sibling fuel m current node =
    if current == null then some (err_invalid_arg, m) else elim (last_sibling fuel m current) [
      | none ↦ none
      | some p ↦ some (ok, set_right (set_parent m node p) p node)
    ]

pub add_child : ℕ → TreeMemory → Ptr → (node : Ptr) → Option (Status × TreeMemory)
unfolding add_sibling set_left set_parent
add_child fuel m current node =
    if current == null
    then some (err_invalid_arg, m)
    else if (m current).left == null
    then some (ok, set_parent (set_left m current node) node current)
    else add_sibling fuel m (m current).left node
