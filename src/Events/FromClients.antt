-- ===== src/Events/FromClients.antt =====
-- core/event/client_event.rs and core/event/ctx.rs: the events of a type that clients send. The
-- engine's `Events` is the list of the events it holds; its cursor is an argument that gives the events
-- not read yet. The functions of a registered event are fields. The log output is left out.
use bevy_mod_replication.Common.{ℕ, List, [], ◌∷◌, ◌++◌, map, Outcome, ok, panic, expect, ◌>>=◌}
use bevy_mod_replication.EntityMap.{ServerEntityMap, to_server}
use bevy_mod_replication.Backend.Server.{Bytes, RepliconServer, receive as server_receive}
use bevy_mod_replication.Backend.Client.{RepliconClient, send as client_send}
use bevy_mod_replication.Wire.{Decoded, value, error, panicked, Reader}

-- `serialize` has the context's map of entities, and a failure of it is a panic of the caller's `expect`.
pub record ClientEvent (E : Type 0) : Type 0 where
  pub events_id : ℕ
  pub reader_id : ℕ
  pub client_events_id : ℕ
  pub channel_id : ℕ
  pub serialize : ServerEntityMap → E → Outcome Bytes
  pub deserialize : Reader E

pub record FromClient (E : Type 0) : Type 0 where
  pub client_id : ℕ
  pub event : E

-- An entity of the client without a mapping is a panic.
unfoldable pub map_entity : ServerEntityMap → ℕ → Outcome ℕ
map_entity entity_map entity = expect (to_server entity_map entity)

module _ {E : Type 0} where
  -- `map_entities` of `E` is an argument.
  unfoldable pub default_serialize_mapped :
      ((ℕ → Outcome ℕ) → E → Outcome E) → (E → Outcome Bytes) → ServerEntityMap → E → Outcome Bytes
  unfolding map_entity
  default_serialize_mapped map_entities write_event entity_map event =
      map_entities (map_entity entity_map) event >>= write_event

  -- The loop of `send_typed`.
  unfoldable pub send_events :
      {Float : Type 0}
      → ClientEvent E
      → ServerEntityMap
      → List E
      → RepliconClient Float
      → Outcome (RepliconClient Float)
  send_events event_data entity_map [] client = ok client
  send_events event_data entity_map (event ∷ rest) client =
      event_data.serialize entity_map event >>= λ message.
      send_events event_data entity_map rest (client_send client event_data.channel_id message)

  unfoldable pub send_typed :
      {Float Cursor : Type 0}
      → (Cursor → List E → List E × Cursor)
      → ClientEvent E
      → ServerEntityMap
      → List E
      → Cursor
      → RepliconClient Float
      → Outcome (RepliconClient Float × Cursor)
  unfolding send_events
  send_typed read event_data entity_map events reader client =
      let unread = read reader events in
      send_events event_data entity_map unread.0 client >>= λ sent. ok (sent, unread.1)

  unfoldable pub apply_decoded : List (FromClient E) → ℕ → Decoded E → Outcome (List (FromClient E))
  apply_decoded events client_id (value event rest) =
      ok (events ++ (record { client_id = client_id; event = event } ∷ []))
  apply_decoded events client_id error = ok events
  apply_decoded events client_id panicked = panic

  -- The loop of `receive_typed`.
  unfoldable pub receive_events :
      ClientEvent E → List (FromClient E) → List (ℕ × Bytes) → Outcome (List (FromClient E))
  unfolding apply_decoded
  receive_events event_data events [] = ok events
  receive_events event_data events ((client_id, message) ∷ rest) =
      apply_decoded events client_id (event_data.deserialize message) >>= λ next.
      receive_events event_data next rest

  unfoldable pub receive_typed :
      ClientEvent E
      → List (FromClient E)
      → RepliconServer
      → Outcome (List (FromClient E) × RepliconServer)
  unfolding receive_events
  receive_typed event_data events server = server_receive server event_data.channel_id >>= λ r.
      receive_events event_data events r.1 >>= λ received. ok (received, r.0)

  -- The server's own events, with none left.
  unfoldable pub resend_locally_typed :
      ℕ → List (FromClient E) → List E → List (FromClient E) × List E
  resend_locally_typed server_id client_events events =
      (client_events ++ map (λ event. record { client_id = server_id; event = event }) events, [])

  unfoldable pub reset_typed : List E → List E
  reset_typed events = []
