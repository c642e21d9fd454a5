-- ===== src/EntityMap.antt =====
-- core/server_entity_map.rs: `ServerEntityMap`, the client's two maps between the server's
-- entities and its own. Both maps are association lists; an entity is a number.
pub mod Invariant
mod Examples
use bevy_mod_replication.Common.{
  ℕ, Bool, true, false, not, Option, none, some, List, [], ◌==◌, if◌then◌else◌, Outcome, ok, panic,
}
use bevy_mod_replication.Common.Maps.{lookup, insert as map_insert, erase}

pub record ServerEntityMap : Type 0 where
  pub server_to_client : List (ℕ × ℕ)
  pub client_to_server : List (ℕ × ℕ)

-- `Default`.
unfoldable pub empty : ServerEntityMap
empty = record { server_to_client = []; client_to_server = [] }

-- Both maps with the pair put in.
unfoldable pub link : ServerEntityMap → ℕ → ℕ → ServerEntityMap
link m server_entity client_entity = record {
  server_to_client = map_insert server_entity client_entity m.server_to_client;
  client_to_server = map_insert client_entity server_entity m.client_to_server;
}

-- `insert` panics where the server's entity is mapped to another entity.
unfoldable pub insert : ServerEntityMap → ℕ → ℕ → Outcome ServerEntityMap
unfolding link
insert m server_entity client_entity = elim (lookup server_entity m.server_to_client) [
  | some existing_entity ↦
      if not (client_entity == existing_entity)
      then panic
      else ok (link m server_entity client_entity)
  | none ↦ ok (link m server_entity client_entity)
]

-- The closure's entity is an argument: it is made only where the entry is vacant.
unfoldable pub get_by_server_or_insert : ServerEntityMap → ℕ → ℕ → ServerEntityMap × ℕ
unfolding link
get_by_server_or_insert m server_entity made = elim (lookup server_entity m.server_to_client) [
  | some client_entity ↦ (m, client_entity)
  | none ↦ (link m server_entity made, made)
]

unfoldable pub get_by_server : ServerEntityMap → ℕ → Option ℕ
get_by_server m server_entity = lookup server_entity m.server_to_client

unfoldable pub remove_by_server : ServerEntityMap → ℕ → ServerEntityMap × Option ℕ
remove_by_server m server_entity = elim (lookup server_entity m.server_to_client) [
  | none ↦ (record m { server_to_client = erase server_entity m.server_to_client }, none)
  | some client_entity ↦ (
    record {
      server_to_client = erase server_entity m.server_to_client;
      client_to_server = erase client_entity m.client_to_server;
    },
    some client_entity,
  )
]

unfoldable pub remove_by_client : ServerEntityMap → ℕ → ServerEntityMap × Option ℕ
remove_by_client m client_entity = elim (lookup client_entity m.client_to_server) [
  | none ↦ (record m { client_to_server = erase client_entity m.client_to_server }, none)
  | some server_entity ↦ (
    record {
      server_to_client = erase server_entity m.server_to_client;
      client_to_server = erase client_entity m.client_to_server;
    },
    some server_entity,
  )
]

unfoldable pub to_client : ServerEntityMap → ℕ → Option ℕ
to_client m server_entity = lookup server_entity m.server_to_client

unfoldable pub to_server : ServerEntityMap → ℕ → Option ℕ
to_server m client_entity = lookup client_entity m.client_to_server

unfoldable pub clear : ServerEntityMap → ServerEntityMap
clear m = record { server_to_client = []; client_to_server = [] }
