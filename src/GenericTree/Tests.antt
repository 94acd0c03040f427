-- ===== src/GenericTree/Tests.antt =====
-- Changes of a tree of three siblings.
use zelda_os.Prelude.{◌≡◌, refl, [], ◌∷◌, arith, ◌==◌, if◌then◌else◌, Ends}
use zelda_os.Status.{ok}
use zelda_os.GenericTree.{TreeMemory, generic_delete_node, add_child}
use zelda_os.GenericTree.Delete.{IsCleared, generic_delete_node-later}
use zelda_os.GenericTree.Children.{AddedChild, add_child-AddedChild}

-- 8 has the children 16, 24 and 32
abbrev memory : TreeMemory
memory a =
    if a == 8
    then record { parent = 0; left = 16; right = 0 }
    else if a == 16
    then record { parent = 8; left = 0; right = 24 }
    else if a == 24
    then record { parent = 16; left = 0; right = 32 }
    else record { parent = 24; left = 0; right = 0 }

-- A deleted node between two siblings leaves the next one as its own parent.
middle_lem :
    Ends
      (generic_delete_node memory 24)
      (λ s. (s.0 ≡ ok) × ((s.1 16).right ≡ 32) × ((s.1 32).parent ≡ 32) × IsCleared s.1 24)
middle_lem =
    generic_delete_node-later memory 16 24 32
      (record {
        below = refl;
        before = refl;
        some_p = refl;
        some_r = refl;
        p_node = refl;
        r_node = refl;
        r_p = refl;
      })
      refl refl

add_child-AddedChild_example : AddedChild 8 40 (16 ∷ 24 ∷ 32 ∷ []) memory (add_child 3 memory 8 40)
add_child-AddedChild_example =
    add_child-AddedChild 3 memory 8 40 (16 ∷ 24 ∷ 32 ∷ [])
      (record {
        some_p = refl;
        first = refl;
        row = (refl, refl, refl, (refl, refl, refl, (refl, refl, refl, tt)));
        distinct = (refl, (refl, (refl, (refl, tt))));
      })
      refl refl refl (omega arith)
