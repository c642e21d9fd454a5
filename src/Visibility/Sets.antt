-- ===== src/Visibility/Sets.antt =====
-- client_visibility.rs: the two loops of `update`, entry by entry.
use bevy_mod_replication.Common.{ℕ, ◌≡◌, refl, if◌then◌else◌, none, some, List, [], ◌∷◌, arith}
use bevy_mod_replication.Common.Maps.{lookup, insert, erase, contains, lookup-insert, lookup-erase}
use bevy_mod_replication.Visibility.{erase_all, insert_all}

module _ {Info : Type 0} where
  pub lookup-erase_all :
      (entities : List ℕ) (e : ℕ) (list : List (ℕ × Info))
      → lookup e (erase_all entities list) ≡ (if contains e entities then none else lookup e list)
  unfolding erase_all contains
  lookup-erase_all [] e list = refl
  lookup-erase_all (d ∷ entities) e list =
      ground (arith, lookup-erase_all entities e (erase d list), lookup-erase d e list)

  pub lookup-insert_all :
      (entities : List ℕ) (info : Info) (e : ℕ) (list : List (ℕ × Info))
      → lookup e (insert_all entities info list)
        ≡ (if contains e entities then some info else lookup e list)
  unfolding insert_all contains
  lookup-insert_all [] info e list = refl
  lookup-insert_all (d ∷ entities) info e list =
      ground
        (arith, lookup-insert_all entities info e (insert d info list), lookup-insert d e info list)
