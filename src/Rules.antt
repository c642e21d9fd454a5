-- ===== src/Rules.antt =====
-- core/replication/replication_rules.rs and server/removal_buffer.rs: the rules for which components
-- are replicated, in descending order of priority, and the removals that they name. An archetype is its
-- test for a component; components and their functions are ids.
pub mod Concerned
pub mod Distinct
pub mod Removals
pub mod Archetypes
pub mod Matching
pub mod Current
pub mod Reader
pub mod Read
mod Examples
use bevy_mod_replication.Common.{
  ℕ, Bool, true, false, not, ◌&&◌, Option, none, some, List, [], ◌∷◌, ◌++◌, length, take, drop, all,
  ◌==◌, if◌then◌else◌,
}
use bevy_mod_replication.Common.Maps.{contains, insert as map_insert}

pub record ReplicationRule : Type 0 where
  pub priority : ℕ
  pub components : List (ℕ × ℕ)

unfoldable pub new : List (ℕ × ℕ) → ReplicationRule
new components = record { priority = length components; components = components }

-- `binary_search` gives the index for a priority in a list in descending order of priority.
unfoldable pub insert :
    (List ReplicationRule → ℕ → ℕ) → List ReplicationRule → ReplicationRule → List ReplicationRule
insert binary_search rules rule =
    let index = binary_search rules rule.priority in take index rules ++ (rule ∷ drop index rules)

unfoldable pub matches : (ℕ → Bool) → ReplicationRule → Bool
matches archetype rule = all (λ c. archetype c.0) rule.components

unfoldable pub matches_from : (ℕ → Bool) → List ℕ → Bool → List (ℕ × ℕ) → Bool
matches_from archetype removed found [] = found
matches_from archetype removed found (c ∷ cs) =
    let next_found = matches_from archetype removed true cs in
    let next = matches_from archetype removed found cs in
    if contains c.0 removed then next_found else if not (archetype c.0) then false else next

unfoldable pub matches_removals : (ℕ → Bool) → List ℕ → ReplicationRule → Bool
unfolding matches_from
matches_removals post_removal_archetype removed rule =
    matches_from post_removal_archetype removed false rule.components

unfoldable pub add_ids : (ℕ → Bool) → List (ℕ × ℕ) → List (ℕ × ℕ) → List (ℕ × ℕ)
add_ids archetype removed_ids [] = removed_ids
add_ids archetype removed_ids (c ∷ cs) =
    add_ids archetype
      (if all (λ r. not (r.0 == c.0)) removed_ids && not (archetype c.0)
        then removed_ids ++ (c ∷ [])
        else removed_ids)
      cs

unfoldable pub collect_ids :
    (ℕ → Bool) → List ℕ → List ReplicationRule → List (ℕ × ℕ) → List (ℕ × ℕ)
unfolding matches_removals add_ids
collect_ids archetype removed [] removed_ids = removed_ids
collect_ids archetype removed (rule ∷ rules) removed_ids = collect_ids archetype removed rules (
    if matches_removals archetype removed rule
    then add_ids archetype removed_ids rule.components
    else removed_ids)

-- `RemovalBuffer::update` and `clear`. An emptied list of the pool is an empty list.
unfoldable pub update :
    List (ℕ × List (ℕ × ℕ))
    → List ReplicationRule
    → (ℕ → Bool)
    → ℕ
    → List ℕ
    → List (ℕ × List (ℕ × ℕ))
unfolding collect_ids
update removals rules archetype entity components =
    elim (collect_ids archetype components rules []) [
      | [] ↦ removals
      | id ∷ ids ↦ map_insert entity (id ∷ ids) removals
    ]

unfoldable pub clear : List (ℕ × List (ℕ × ℕ)) → List (ℕ × List (ℕ × ℕ))
clear removals = []
