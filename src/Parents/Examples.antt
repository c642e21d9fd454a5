-- ===== src/Parents/Examples.antt =====
-- Tests and examples for the hierarchy of entities.
use bevy_mod_replication.Common.{
  ℕ, ◌≡◌, refl, Option, none, some, List, [], ◌∷◌, if◌then◌else◌, ◌==◌,
}
use bevy_mod_replication.Common.Maps.{contains}
use bevy_mod_replication.Parents.{Command, Hierarchy, IsHierarchy, apply, sync_hierarchy}
use bevy_mod_replication.Parents.Synced.{sync_hierarchy-parent}

-- A world that is the parents of its entities.
abbrev by_function : Hierarchy (ℕ → Option ℕ)
by_function = record {
  parent = λ w e. w e;
  set_parent = λ w entity parent e. if entity == e then some parent else w e;
  remove_parent = λ w entity e. if entity == e then none else w e;
}

by_function-IsHierarchy : IsHierarchy by_function
by_function-IsHierarchy = record {
  set_parent-parent = λ w entity parent e. refl;
  remove_parent-parent = λ w entity e. refl;
}

-- Entity 1 has parent 9, entity 2 has parent 8, and no other has one.
abbrev some_parents : ℕ → Option ℕ
some_parents e = if e == 1 then some 9 else if e == 2 then some 8 else none

-- Entity 1 loses its parent, entity 2 gets another, and entity 3 gets one.
abbrev some_stored : ℕ → Option ℕ
some_stored e = if e == 2 then some 7 else if e == 3 then some 7 else none

abbrev some_commands : List Command
some_commands =
    sync_hierarchy
      ((1, none, some 9) ∷ (2, some 7, some 8) ∷ (3, some 7, none) ∷ (4, some 5, some 5) ∷ [])

test_commands :
    some_commands ≡ Command.remove_parent 1 ∷ Command.set_parent 2 7 ∷ Command.set_parent 3 7 ∷ []
unfolding sync_hierarchy
test_commands = refl

sync_hierarchy-parent_example :
    by_function.parent
      (apply by_function some_parents (
        sync_hierarchy (
          (1, some_stored 1, some_parents 1)
          ∷ (2, some_stored 2, some_parents 2)
          ∷ (3, some_stored 3, some_parents 3)
          ∷ [])))
      2
    ≡ some 7
unfolding contains
sync_hierarchy-parent_example =
    sync_hierarchy-parent by_function by_function-IsHierarchy some_parents some_stored
      (1 ∷ 2 ∷ 3 ∷ []) 2
