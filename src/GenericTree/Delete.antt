-- ===== src/GenericTree/Delete.antt =====
-- What `generic_delete_node` leaves around the node.
use zelda_os.Prelude.{◌≡◌, refl, true, false, arith, ◌==◌, ==_iff, Ends}
use zelda_os.Status.{ok}
use zelda_os.GenericTree.{
  TreeMemory, set_parent, set_left, set_right, clear_node, bypass_left, bypass_right,
  generic_delete_node,
}
use zelda_os.Links.{Ptr, null}

-- a node with a parent and a next sibling, all different
pub record Between (m : TreeMemory) (p node r : Ptr) : Type 0 where
  pub below : (m node).parent ≡ p
  pub before : (m node).right ≡ r
  pub some_p : (p == null) ≡ false
  pub some_r : (r == null) ≡ false
  pub p_node : (p == node) ≡ false
  pub r_node : (r == node) ≡ false
  pub r_p : (r == p) ≡ false

-- the node is detached
abbrev pub IsCleared : TreeMemory → Ptr → Type 0
IsCleared m node = ((m node).parent ≡ null) × ((m node).right ≡ null)

-- A first child that is deleted gives its place to the next sibling, which gets its parent.
pub generic_delete_node-first :
    (m : TreeMemory) (p node r : Ptr)
    → Between m p node r
    → (m p).left ≡ node
    → Ends
        (generic_delete_node m node)
        (λ s. (s.0 ≡ ok) × ((s.1 p).left ≡ r) × ((s.1 r).parent ≡ p) × IsCleared s.1 node)
unfolding generic_delete_node bypass_left clear_node set_parent set_left set_right
generic_delete_node-first m p node r b first =
    let self : (node == node) ≡ true = (==_iff node node).1 refl in
    let self_p : (p == p) ≡ true = (==_iff p p).1 refl in
    let self_r : (r == r) ≡ true = (==_iff r r).1 refl in
    let node_r : (node == r) ≡ false = let h = b.r_node in ground arith in
    let p_r : (p == r) ≡ false = let h = b.r_p in ground arith in
    simp
      (
        b.below, b.before, first, b.some_p, b.some_r, b.p_node, b.r_node, b.r_p, self, self_p,
        self_r, node_r, p_r,
      )
      (refl, refl, refl, (refl, refl))

-- A later sibling that is deleted, and that has a next one, gives its place to the next one, but
-- that one becomes its own parent.
pub generic_delete_node-later :
    (m : TreeMemory) (p node r : Ptr)
    → Between m p node r
    → ((m p).left == node) ≡ false
    → (m p).right ≡ node
    → Ends
        (generic_delete_node m node)
        (λ s. (s.0 ≡ ok) × ((s.1 p).right ≡ r) × ((s.1 r).parent ≡ r) × IsCleared s.1 node)
unfolding generic_delete_node bypass_right clear_node set_parent set_left set_right
generic_delete_node-later m p node r b not_first later =
    let self : (node == node) ≡ true = (==_iff node node).1 refl in
    let self_p : (p == p) ≡ true = (==_iff p p).1 refl in
    let self_r : (r == r) ≡ true = (==_iff r r).1 refl in
    let node_r : (node == r) ≡ false = let h = b.r_node in ground arith in
    let p_r : (p == r) ≡ false = let h = b.r_p in ground arith in
    simp
      (
        b.below, b.before, not_first, later, b.some_p, b.some_r, b.p_node, b.r_node, b.r_p, self,
        self_p, self_r, node_r, p_r,
      )
      (refl, refl, refl, (refl, refl))
