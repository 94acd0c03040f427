-- ===== src/GenericTree/Children.antt =====
-- The children of a node, as a row of siblings.
use zelda_os.Prelude.{
  ℕ, zero, suc, ◌≤◌, ◌<◌, ◌≡◌, refl, sym, ap, subst, ◌∙◌, inl, inr, true, false, Option, none, some,
  List, [], ◌∷◌, ◌++◌, arith, ◌==◌, ==_iff, Bool-cases, length,
}
use zelda_os.Status.{Status, ok}
use zelda_os.GenericTree.{
  TreeNode, TreeMemory, set_parent, set_left, set_right, last_sibling, add_sibling, add_child,
}
use zelda_os.Links.{Ptr, null}
use zelda_os.Links.Chain.{has, Distinct, first_or, last_or, has-append, has-last}

-- `xs` is a row of siblings: each one's `right` is the next, and each one's `parent` is the one
-- before it, `p` for the first.
abbrev pub IsRow : TreeMemory → Ptr → List Ptr → Type 0
IsRow m p [] = Unit
IsRow m p (x ∷ xs) =
    ((x == null) ≡ false) × ((m x).parent ≡ p) × ((m x).right ≡ first_or xs null) × IsRow m x xs

-- the children of a node, all different nodes and not the node itself
pub record HasChildren (m : TreeMemory) (p : Ptr) (xs : List Ptr) : Type 0 where
  pub some_p : (p == null) ≡ false
  pub first : (m p).left ≡ first_or xs null
  pub row : IsRow m p xs
  pub distinct : Distinct (p ∷ xs)

last_sibling-last :
    (fuel : ℕ) (m : TreeMemory) (p x : Ptr) (xs : List Ptr)
    → IsRow m p (x ∷ xs)
    → length xs < fuel
    → last_sibling fuel m x ≡ some (last_or x xs)
unfolding last_sibling
last_sibling-last zero m p x xs row enough = absurd (omega (arith, enough))
last_sibling-last (suc fuel) m p x [] row enough = rw row.2 refl
last_sibling-last (suc fuel) m p x (y ∷ xs) row enough =
    rw (row.2, row.3.0) (last_sibling-last fuel m x y xs row.3 (omega (arith, enough)))

-- the two assignments of `add_sibling`
abbrev joined : TreeMemory → (last node : Ptr) → TreeMemory
joined m last node = set_right (set_parent m node last) last node

joined-other :
    (m : TreeMemory) (last node a : Ptr)
    → (a == last) ≡ false
    → (a == node) ≡ false
    → joined m last node a ≡ m a
unfolding set_right set_parent
joined-other m last node a l n = rw (l, n) refl

joined-last :
    (m : TreeMemory) (last node : Ptr)
    → (last == node) ≡ false
    → joined m last node last ≡ record (m last) { right = node }
unfolding set_right set_parent
joined-last m last node n =
    let self : (last == last) ≡ true = (==_iff last last).1 refl in rw (self, n) refl

joined-node :
    (m : TreeMemory) (last node : Ptr)
    → (last == node) ≡ false
    → joined m last node node ≡ record (m node) { parent = last }
unfolding set_right set_parent
joined-node m last node n =
    let self : (node == node) ≡ true = (==_iff node node).1 refl in
    let other : (node == last) ≡ false = ground arith in rw (self, other) refl

differ_sym : (a b : Ptr) → (a == b) ≡ false → (b == a) ≡ false
differ_sym a b h = ground arith

apart_last : (a y : Ptr) (xs : List Ptr) → has a (y ∷ xs) ≡ false → (a == last_or y xs) ≡ false
apart_last a y xs out = elim (Bool-cases (a == last_or y xs)) [
  | inr other ↦ other
  | inl e ↦ absurd (
      let here : has a (y ∷ xs) ≡ true =
        subst (λ (b : Ptr). has b (y ∷ xs) ≡ true) (sym ((==_iff _ _).0 e)) (has-last y xs) in
      ground (arith, here, out))
]

-- a node behind the last of a row
IsRow-joined :
    (m : TreeMemory) (p x : Ptr) (xs : List Ptr) (node : Ptr)
    → IsRow m p (x ∷ xs)
    → Distinct (x ∷ xs)
    → has node (x ∷ xs) ≡ false
    → (node == null) ≡ false
    → (m node).right ≡ null
    → IsRow (joined m (last_or x xs) node) p (x ∷ xs ++ node ∷ [])
IsRow-joined m p x [] node row d out some_node end =
    let n : (x == node) ≡ false = ground arith in
    let at_x = joined-last m x node n in
    let at_node = joined-node m x node n in
    (
      row.0,
      ap (λ (t : TreeNode). t.parent) at_x ∙ row.1,
      ap (λ (t : TreeNode). t.right) at_x,
      (
        some_node,
        ap (λ (t : TreeNode). t.parent) at_node,
        ap (λ (t : TreeNode). t.right) at_node ∙ end,
        tt,
      ),
    )
IsRow-joined m p x (y ∷ xs) node row d out some_node end =
    let n : (x == node) ≡ false = ground arith in
    let l : (x == last_or y xs) ≡ false = apart_last x y xs d.0 in
    let at_x = joined-other m (last_or y xs) node x l n in
    (
      row.0,
      ap (λ (t : TreeNode). t.parent) at_x ∙ row.1,
      ap (λ (t : TreeNode). t.right) at_x ∙ row.2,
      IsRow-joined m x y xs node row.3 d.1 (ground arith) some_node end,
    )

-- The node is the last child and keeps its own children, and no other node is changed but the one
-- that was the last.
abbrev pub AddedChild :
    (p node : Ptr) → List Ptr → TreeMemory → Option (Status × TreeMemory) → Type 0
AddedChild p node xs m none = ⊥
AddedChild p node xs m (some (rc, n)) =
    (rc ≡ ok)
    × HasChildren n p (xs ++ node ∷ [])
    × ((n node).left ≡ (m node).left)
    × ((a : Ptr) → (a == node) ≡ false → (a == last_or p xs) ≡ false → n a ≡ m a)

Distinct-node :
    (xs : List Ptr) (node : Ptr) → Distinct xs → has node xs ≡ false → Distinct (xs ++ node ∷ [])
Distinct-node [] node d out = (refl, tt)
Distinct-node (x ∷ xs) node d out =
    (has-append x xs (node ∷ []) ∙ ground (arith, d.0), Distinct-node xs node d.1 (ground arith))

-- the two assignments of `add_child` for the first child
abbrev adopted : TreeMemory → (p node : Ptr) → TreeMemory
adopted m p node = set_parent (set_left m p node) node p

adopted-parent :
    (m : TreeMemory) (p node : Ptr)
    → (p == node) ≡ false
    → adopted m p node p ≡ record (m p) { left = node }
unfolding set_left set_parent
adopted-parent m p node n = let self : (p == p) ≡ true = (==_iff p p).1 refl in rw (self, n) refl

adopted-node :
    (m : TreeMemory) (p node : Ptr)
    → (p == node) ≡ false
    → adopted m p node node ≡ record (m node) { parent = p }
unfolding set_left set_parent
adopted-node m p node n =
    let self : (node == node) ≡ true = (==_iff node node).1 refl in
    let other : (node == p) ≡ false = ground arith in rw (self, other) refl

adopted-other :
    (m : TreeMemory) (p node a : Ptr)
    → (a == node) ≡ false
    → (a == p) ≡ false
    → adopted m p node a ≡ m a
unfolding set_left set_parent
adopted-other m p node a n k = rw (n, k) refl

-- `add_child` of a node without siblings that is neither the parent nor one of its children makes it
-- the last child, if it has at least as much fuel as there are children, and returns OK: each child's
-- `right` is the next one and its `parent` the one before it, or the parent for the first. The node
-- keeps its own children, and no other node is changed but the one that was the last child, or the
-- parent if there was none.
pub add_child-AddedChild :
    (fuel : ℕ) (m : TreeMemory) (p node : Ptr) (xs : List Ptr)
    → HasChildren m p xs
    → has node (p ∷ xs) ≡ false
    → (node == null) ≡ false
    → (m node).right ≡ null
    → length xs ≤ fuel
    → AddedChild p node xs m (add_child fuel m p node)
unfolding add_child add_sibling
add_child-AddedChild fuel m p node [] h out some_node end enough =
    let n : (p == node) ≡ false = ground arith in
    let at_p = adopted-parent m p node n in
    let at_node = adopted-node m p node n in
    rw (h.some_p, h.first)
      (
        refl,
        record {
          some_p = h.some_p;
          first = ap (λ (t : TreeNode). t.left) at_p;
          row = (
            some_node,
            ap (λ (t : TreeNode). t.parent) at_node,
            ap (λ (t : TreeNode). t.right) at_node ∙ end,
            tt,
          );
          distinct = (ground arith, (refl, tt));
        },
        ap (λ (t : TreeNode). t.left) at_node,
        λ a other apart. adopted-other m p node a other apart,
      )
add_child-AddedChild fuel m p node (x ∷ xs) h out some_node end enough =
    let n : (p == node) ≡ false = ground arith in
    let k : (node == last_or x xs) ≡ false = apart_last node x xs (ground arith) in
    let l : (last_or x xs == node) ≡ false = differ_sym node (last_or x xs) k in
    let at_p = joined-other m (last_or x xs) node p (apart_last p x xs h.distinct.0) n in
    rw (h.some_p, h.first, h.row.0, last_sibling-last fuel m p x xs h.row (omega arith))
      (
        refl,
        record {
          some_p = h.some_p;
          first = ap (λ (t : TreeNode). t.left) at_p ∙ h.first;
          row = IsRow-joined m p x xs node h.row h.distinct.1 (ground arith) some_node end;
          distinct = Distinct-node (p ∷ x ∷ xs) node h.distinct out;
        },
        ap (λ (t : TreeNode). t.left) (joined-node m (last_or x xs) node l),
        λ a other apart. joined-other m (last_or x xs) node a apart other,
      )
