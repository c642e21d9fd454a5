-- ===== src/Parents.antt =====
-- parent_sync.rs: the hierarchy of entities, which `ParentSync` replicates. A query's rows are a list. The
-- engine's commands are values, and its world, with what the commands do to it, is a parameter
-- (`Hierarchy`). The registration of the systems and the marks of changed components are left out.
pub mod Synced
mod Examples
use bevy_mod_replication.Common.{
  ℕ, ◌≡◌, Bool, true, false, not, Option, none, some, List, [], ◌∷◌, ◌++◌, map, ◌==◌, if◌then◌else◌,
}
use bevy_mod_replication.Backend.Client.{RepliconClient}
use bevy_mod_replication.Conditions.{server_or_singleplayer}

-- `ParentSync(Option<Entity>)`.
pub record ParentSync : Type 0 where
  pub parent : Option ℕ

pub data Command : Type 0 where
  set_parent : ℕ → ℕ → Command
  remove_parent : ℕ → Command

-- An entity, its `ParentSync` and its `Parent`, if it has one.
unfoldable pub sync_entity : ℕ → Option ℕ → Option ℕ → List Command
sync_entity entity (some parent) none = Command.set_parent entity parent ∷ []
sync_entity entity (some parent) (some p) =
    if not (p == parent) then Command.set_parent entity parent ∷ [] else []
sync_entity entity none (some p) = Command.remove_parent entity ∷ []
sync_entity entity none none = []

unfoldable pub sync_hierarchy : List (ℕ × Option ℕ × Option ℕ) → List Command
unfolding sync_entity
sync_hierarchy [] = []
sync_hierarchy (row ∷ rows) = sync_entity row.0 row.1 row.2 ++ sync_hierarchy rows

-- `set_if_neq` is the engine's: it gives the component a value that it does not have yet.
module _ (set_if_neq : ParentSync → ParentSync → ParentSync) where
  unfoldable pub store_changes : List (ℕ × ParentSync) → List ParentSync
  store_changes hierarchy = map (λ row. set_if_neq row.1 (record { parent = some row.0 })) hierarchy

  -- The observer `init`. The row is what the query has for the entity of the trigger.
  unfoldable pub init :
      {Float : Type 0} → Option (RepliconClient Float) → Option (ℕ × ParentSync) → Option ParentSync
  unfolding server_or_singleplayer
  init client none = none
  init client (some row) =
      if not (server_or_singleplayer client)
      then some row.1
      else some (set_if_neq row.1 (record { parent = some row.0 }))

unfoldable pub map_entities : (ℕ → ℕ) → ParentSync → ParentSync
map_entities map_entity s = elim s.parent [
  | none ↦ s
  | some entity ↦ record s { parent = some (map_entity entity) }
]

-- The observer of removed parents.
unfoldable pub store_removals :
    {Float : Type 0} → Option (RepliconClient Float) → Option ParentSync → Option ParentSync
unfolding server_or_singleplayer
store_removals client none = none
store_removals client (some s) =
    if not (server_or_singleplayer client) then some s else some (record { parent = none })

-- The engine's world, as far as `Parent` goes.
pub record Hierarchy (World : Type 0) : Type 0 where
  pub parent : World → ℕ → Option ℕ
  pub set_parent : World → ℕ → ℕ → World
  pub remove_parent : World → ℕ → World

-- The commands do what the engine's documentation says of them.
pub record IsHierarchy {World : Type 0} (h : Hierarchy World) : Type 0 where
  pub set_parent-parent :
      (w : World) (entity parent e : ℕ)
      → h.parent (h.set_parent w entity parent) e
        ≡ (if entity == e then some parent else h.parent w e)
  pub remove_parent-parent :
      (w : World) (entity e : ℕ)
      → h.parent (h.remove_parent w entity) e ≡ (if entity == e then none else h.parent w e)

-- The queue of commands is applied in order.
unfoldable pub apply : {World : Type 0} → Hierarchy World → World → List Command → World
apply h w [] = w
apply h w (Command.set_parent entity parent ∷ commands) =
    apply h (h.set_parent w entity parent) commands
apply h w (Command.remove_parent entity ∷ commands) = apply h (h.remove_parent w entity) commands
