-- ===== src/Links/Tests.antt =====
-- The list theorems at a concrete list.
use zelda_os.Prelude.{◌≡◌, refl, some, List, [], ◌∷◌, arith, ◌==◌, if◌then◌else◌, done, Ends}
use zelda_os.Links.{Ptr, Memory, list_append, list_delete}
use zelda_os.Links.Shape.{IsList, IsNew, Inserted, Removed}
use zelda_os.Links.Append.{list_append-IsList}
use zelda_os.Links.Delete.{list_delete-Removed}

-- a head at 8 with the nodes 16, 24 and 32; every other address holds zeroes
abbrev memory : Memory
memory a =
    if a == 8
    then record { prev = 32; next = 16 }
    else if a == 16
    then record { prev = 0; next = 24 }
    else if a == 24
    then record { prev = 16; next = 32 }
    else if a == 32
    then record { prev = 24; next = 0 }
    else record { prev = 0; next = 0 }

abbrev nodes : List Ptr
nodes = 16 ∷ 24 ∷ 32 ∷ []

three : IsList memory 8 nodes
three = record {
  apart = (refl, (refl, (refl, (refl, tt))));
  nonnull = refl;
  first = refl;
  last = refl;
  links = (refl, refl, (refl, refl, (refl, refl, tt)));
}

fresh_40 : IsNew memory 8 40 nodes
fresh_40 = record {
  detached = record { no_prev = refl; no_next = refl };
  outside = refl;
  nonnull = omega arith;
}

list_append-IsList_example :
    Ends (list_append memory 8 40) (Inserted memory 8 40 nodes (16 ∷ 24 ∷ 32 ∷ 40 ∷ []))
list_append-IsList_example = list_append-IsList memory 8 40 nodes three fresh_40

list_delete-Removed_example :
    (n : Memory) × (list_delete 9 memory 8 24 ≡ some (done n))
    × Removed memory 8 24 nodes (16 ∷ 32 ∷ []) n
list_delete-Removed_example =
    list_delete-Removed memory 8 24 9 (16 ∷ []) (32 ∷ []) three (omega arith)
