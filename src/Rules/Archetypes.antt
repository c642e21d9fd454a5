-- ===== src/Rules/Archetypes.antt =====
-- server/replicated_archetypes.rs: the archetypes whose entities are replicated, each with its components
-- and their functions by the rules. An archetype is given by its id and the storage of each component
-- that it has; archetypes are never removed, so that a generation is the number of those there are.
-- The log output is left out.
use bevy_mod_replication.Common.{
  ℕ, Bool, true, false, Option, none, some, List, [], ◌∷◌, ◌++◌, length, drop, any, ◌==◌,
  if◌then◌else◌, Outcome, ok, ◌>>=◌, expect,
}
use bevy_mod_replication.Rules.{ReplicationRule, matches}

pub record Archetype (Storage : Type 0) : Type 0 where
  pub id : ℕ
  pub storage_type : ℕ → Option Storage

pub record ReplicatedComponent (Storage : Type 0) : Type 0 where
  pub component_id : ℕ
  pub storage : Storage
  pub fns_id : ℕ

pub record ReplicatedArchetype (Storage : Type 0) : Type 0 where
  pub id : ℕ
  pub components : List (ReplicatedComponent Storage)

pub record ReplicatedArchetypes (Storage : Type 0) : Type 0 where
  pub marker_id : ℕ
  pub generation : ℕ
  pub archetypes : List (ReplicatedArchetype Storage)

abbrev pub is_there : {A : Type 0} → Option A → Bool
is_there none = false
is_there (some a) = true

module _ {Storage : Type 0} where
  unfoldable pub new : ℕ → ReplicatedArchetype Storage
  new id = record { id = id; components = [] }

  -- `FromWorld`.
  unfoldable pub from_world : ℕ → ReplicatedArchetypes Storage
  from_world marker_id = record { marker_id = marker_id; generation = 0; archetypes = [] }

  abbrev pub has_component : Archetype Storage → ℕ → Bool
  has_component archetype id = is_there (archetype.storage_type id)

  -- The components of a rule. The source does not check that the archetype has the component; a
  -- component that it does not have is a panic here.
  unfoldable pub add_components :
      Archetype Storage
      → List (ReplicatedComponent Storage)
      → List (ℕ × ℕ)
      → Outcome (List (ReplicatedComponent Storage))
  add_components archetype components [] = ok components
  add_components archetype components ((component_id, fns_id) ∷ rest) =
      let skipped = add_components archetype components rest in
      let added = expect (archetype.storage_type component_id) >>= λ storage.
      add_components archetype
        (components
          ++ (record { component_id = component_id; storage = storage; fns_id = fns_id } ∷ []))
        rest in
      if any (λ component. component.component_id == component_id) components
      then skipped
      else added

  unfoldable pub add_rules :
      Archetype Storage
      → List (ReplicatedComponent Storage)
      → List ReplicationRule
      → Outcome (List (ReplicatedComponent Storage))
  unfolding add_components
  add_rules archetype components [] = ok components
  add_rules archetype components (rule ∷ rules) =
      let added = add_components archetype components rule.components >>= λ more.
      add_rules archetype more rules in
      let skipped = add_rules archetype components rules in
      if matches (has_component archetype) rule then added else skipped

  unfoldable pub add_archetypes :
      ℕ
      → List ReplicationRule
      → List (ReplicatedArchetype Storage)
      → List (Archetype Storage)
      → Outcome (List (ReplicatedArchetype Storage))
  unfolding add_rules new
  add_archetypes marker_id rules replicated [] = ok replicated
  add_archetypes marker_id rules replicated (archetype ∷ rest) =
      let added = add_rules archetype (new archetype.id).components rules >>= λ components.
      add_archetypes marker_id rules
        (replicated ++ (record { id = archetype.id; components = components } ∷ [])) rest in
      let skipped = add_archetypes marker_id rules replicated rest in
      if has_component archetype marker_id then added else skipped

  unfoldable pub update :
      ReplicatedArchetypes Storage
      → List (Archetype Storage)
      → List ReplicationRule
      → Outcome (ReplicatedArchetypes Storage)
  unfolding add_archetypes
  update replicated world rules =
      add_archetypes replicated.marker_id rules replicated.archetypes
        (drop replicated.generation world)
      >>= λ archetypes.
          ok (record replicated { generation = length world; archetypes = archetypes })
