-- ===== src/Chain/Tests.antt =====
-- Lists of two and three nodes, and the theorems about them.
use chromatron.Chain.Inserts.Tail.{insert_tail-Yields}
use chromatron.Chain.{insert_tail}
use chromatron.Base.{◌++◌, refl, none, some, [], ◌∷◌, ◌==◌, if◌then◌else◌}
use chromatron.Chain.{Node, Store, Endpoints, insert_after}
use chromatron.Chain.Linked.{Cells, IsList, Yields}
use chromatron.Chain.Inserts.After.{insert_after-Yields}
use chromatron.Chain.{remove}
use chromatron.Chain.Removal.{remove-Yields}

-- Nodes 1 and 2 are linked, node 3 is not.
abbrev store : Store
store = λ a.
    if a == 1
    then some (record { prev = none; next = some 2; payload = 10 ∷ [] })
    else if a == 2
    then some (record { prev = some 1; next = none; payload = 20 ∷ [] })
    else if a == 3
    then some (record { prev = none; next = none; payload = 30 ∷ [] })
    else none

abbrev ends : Endpoints
ends = record { head = some 1; tail = some 2 }

abbrev two_nodes : Cells
two_nodes = (1, 10 ∷ []) ∷ (2, 20 ∷ []) ∷ []

abbrev loose : Node
loose = record { prev = none; next = none; payload = 30 ∷ [] }

two_nodes-IsList : IsList ends store two_nodes
two_nodes-IsList = record {
  head = refl;
  tail = refl;
  linked = (refl, (refl, tt));
  distinct = (refl, (refl, tt));
}

insert_after-Yields_example :
    Yields store ((1, 10 ∷ []) ∷ (3, 30 ∷ []) ∷ (2, 20 ∷ []) ∷ []) (insert_after 1 3 ends store)
insert_after-Yields_example =
    insert_after-Yields 3 loose store refl ends [] 1 (10 ∷ []) ((2, 20 ∷ []) ∷ []) two_nodes-IsList
      refl

remove-Yields_example : Yields store ((2, 20 ∷ []) ∷ []) (remove 1 ends store)
remove-Yields_example = remove-Yields 1 (10 ∷ []) store ends [] ((2, 20 ∷ []) ∷ []) two_nodes-IsList

insert_tail-Yields_example :
    Yields store (two_nodes ++ ((3, 30 ∷ []) ∷ [])) (insert_tail 3 ends store)
insert_tail-Yields_example =
    insert_tail-Yields 3 loose store refl ends two_nodes two_nodes-IsList refl
