-- ===== src/Events/Registry.antt =====
-- core/event/event_registry.rs, client/event.rs and server/event.rs: the registered events and the systems that go
-- through them. The types of the events are one type `E`, and the engine's resources are
-- association lists by their ids; a resource that is not there is a panic.
use bevy_mod_replication.Common.{
  ℕ, List, [], ◌∷◌, ◌++◌, ◌==◌, if◌then◌else◌, Outcome, ok, panic, ◌>>=◌, expect,
}
use bevy_mod_replication.Common.Maps.{lookup, insert as map_insert}
use bevy_mod_replication.Tick.{RepliconTick}
use bevy_mod_replication.EntityMap.{ServerEntityMap}
use bevy_mod_replication.Backend.Server.{RepliconServer}
use bevy_mod_replication.Backend.Client.{RepliconClient}
use bevy_mod_replication.Wire.{Reader}
use bevy_mod_replication.Events.{BufferedServerEventSet, start_tick}
use bevy_mod_replication.Events.Queue.{
  Multimap, Progress, done, stopped, unfinished, returned, ServerEvent, make_independent,
  reset_queue, receive_typed,
}
use bevy_mod_replication.Events.Sending.{ToClients, send_or_buffer_typed, resend_locally_typed}
use bevy_mod_replication.Events.FromClients.{
  ClientEvent, FromClient, send_typed as client_send_typed, receive_typed as server_receive_typed,
  resend_locally_typed as client_resend_locally_typed, reset_typed,
}

pub record EventRegistry (E : Type 0) : Type 0 where
  pub server : List (ServerEvent E)
  pub client : List (ClientEvent E)

-- The resources, by the id of their component.
pub record Resources (E Q Cursor : Type 0) : Type 0 where
  pub events : List (ℕ × List E)
  pub to_clients : List (ℕ × List (ToClients E))
  pub from_clients : List (ℕ × List (FromClient E))
  pub queues : List (ℕ × Q)
  pub readers : List (ℕ × Cursor)

unfoldable pub resource : {V : Type 0} → ℕ → List (ℕ × V) → Outcome V
resource id resources = expect (lookup id resources)

module _ {E : Type 0} where
  unfoldable pub register_server_event : EventRegistry E → ServerEvent E → EventRegistry E
  register_server_event registry event_data = record registry {
    server = registry.server ++ (event_data ∷ []);
  }

  unfoldable pub register_client_event : EventRegistry E → ClientEvent E → EventRegistry E
  register_client_event registry event_data = record registry {
    client = registry.client ++ (event_data ∷ []);
  }

  -- The first event with the id is made independent.
  unfoldable pub mark_independent : ℕ → List (ServerEvent E) → Outcome (List (ServerEvent E))
  mark_independent events_id [] = panic
  mark_independent events_id (event_data ∷ rest) =
      let others = mark_independent events_id rest >>= λ marked. ok (event_data ∷ marked) in
      if event_data.events_id == events_id then ok (make_independent event_data ∷ rest) else others

  unfoldable pub make_event_independent : EventRegistry E → ℕ → Outcome (EventRegistry E)
  unfolding mark_independent
  make_event_independent registry events_id =
      mark_independent events_id registry.server >>= λ marked.
      ok (record registry { server = marked })

module _ {E Q Cursor : Type 0} where
  -- `ServerEventPlugin::send_or_buffer`; the loop over the registered events.
  unfoldable pub send_or_buffer_each :
      ℕ
      → List (ServerEvent E)
      → Resources E Q Cursor
      → List ℕ
      → RepliconServer
      → List BufferedServerEventSet
      → Outcome (RepliconServer × List BufferedServerEventSet)
  unfolding resource
  send_or_buffer_each tick_size [] world connected server buffer = ok (server, buffer)
  send_or_buffer_each tick_size (event_data ∷ rest) world connected server buffer =
      resource event_data.server_events_id world.to_clients >>= λ events.
      send_or_buffer_typed event_data tick_size events server connected buffer >>= λ r.
      send_or_buffer_each tick_size rest world connected r.0 r.1

  unfoldable pub send_or_buffer :
      ℕ
      → EventRegistry E
      → Resources E Q Cursor
      → List ℕ
      → RepliconServer
      → List BufferedServerEventSet
      → Outcome (RepliconServer × List BufferedServerEventSet)
  unfolding send_or_buffer_each
  send_or_buffer tick_size registry world connected server buffer =
      send_or_buffer_each tick_size registry.server world connected server (start_tick buffer)

  -- `ServerEventPlugin::resend_locally`.
  unfoldable pub resend_server_events :
      List (ServerEvent E) → Resources E Q Cursor → Outcome (Resources E Q Cursor)
  unfolding resource
  resend_server_events [] world = ok world
  resend_server_events (event_data ∷ rest) world =
      resource event_data.server_events_id world.to_clients >>= λ to_clients.
      resource event_data.events_id world.events >>= λ events.
      resend_server_events rest (record world {
        to_clients =
            map_insert event_data.server_events_id (resend_locally_typed to_clients events).0
              world.to_clients;
        events =
            map_insert event_data.events_id (resend_locally_typed to_clients events).1 world.events;
      })

  -- `ServerEventPlugin::receive`.
  unfoldable pub receive_from_clients :
      List (ClientEvent E)
      → Resources E Q Cursor
      → RepliconServer
      → Outcome (Resources E Q Cursor × RepliconServer)
  unfolding resource
  receive_from_clients [] world server = ok (world, server)
  receive_from_clients (event_data ∷ rest) world server =
      resource event_data.client_events_id world.from_clients >>= λ events.
      server_receive_typed event_data events server >>= λ r.
      receive_from_clients rest
        (record world {
          from_clients = map_insert event_data.client_events_id r.0 world.from_clients;
        })
        r.1

  -- `ClientEventPlugin::send`.
  unfoldable pub send_to_server :
      {Float : Type 0}
      → (Cursor → List E → List E × Cursor)
      → ServerEntityMap
      → List (ClientEvent E)
      → Resources E Q Cursor
      → RepliconClient Float
      → Outcome (Resources E Q Cursor × RepliconClient Float)
  unfolding resource
  send_to_server read entity_map [] world client = ok (world, client)
  send_to_server read entity_map (event_data ∷ rest) world client =
      resource event_data.events_id world.events >>= λ events.
      resource event_data.reader_id world.readers >>= λ reader.
      client_send_typed read event_data entity_map events reader client >>= λ r.
      send_to_server read entity_map rest
        (record world { readers = map_insert event_data.reader_id r.1 world.readers }) r.0

  -- `ClientEventPlugin::resend_locally`.
  unfoldable pub resend_client_events :
      ℕ → List (ClientEvent E) → Resources E Q Cursor → Outcome (Resources E Q Cursor)
  unfolding resource
  resend_client_events server_id [] world = ok world
  resend_client_events server_id (event_data ∷ rest) world =
      resource event_data.client_events_id world.from_clients >>= λ client_events.
      resource event_data.events_id world.events >>= λ events.
      resend_client_events server_id rest (record world {
        from_clients =
            map_insert event_data.client_events_id
              (client_resend_locally_typed server_id client_events events).0 world.from_clients;
        events =
            map_insert event_data.events_id
              (client_resend_locally_typed server_id client_events events).1 world.events;
      })

  -- `ClientEventPlugin::reset`: the clients' events, then the queues.
  unfoldable pub reset_client_events :
      List (ClientEvent E) → Resources E Q Cursor → Outcome (Resources E Q Cursor)
  unfolding resource
  reset_client_events [] world = ok world
  reset_client_events (event_data ∷ rest) world =
      resource event_data.events_id world.events >>= λ events.
      reset_client_events rest (record world {
        events = map_insert event_data.events_id (reset_typed events) world.events;
      })

  unfoldable pub reset_queues :
      Multimap Q → List (ServerEvent E) → Resources E Q Cursor → Outcome (Resources E Q Cursor)
  unfolding resource
  reset_queues m [] world = ok world
  reset_queues m (event_data ∷ rest) world = resource event_data.queue_id world.queues >>= λ queue.
      reset_queues m rest (record world {
        queues = map_insert event_data.queue_id (reset_queue m queue) world.queues;
      })

  unfoldable pub reset :
      Multimap Q → EventRegistry E → Resources E Q Cursor → Outcome (Resources E Q Cursor)
  unfolding reset_client_events reset_queues
  reset m registry world = reset_client_events registry.client world >>= λ emptied.
      reset_queues m registry.server emptied

abbrev resume {ℓ κ} : {A : Type ℓ} {B : Type κ} → Progress A → (A → Progress B) → Progress B
resume (done a) f = f a
resume stopped f = stopped
resume unfinished f = unfinished

module _ {E Q Cursor Float : Type 0} (m : Multimap Q) (read_tick : Reader RepliconTick)
    (entity_map : ServerEntityMap) (update_tick : RepliconTick) where
  -- `ClientEventPlugin::receive`: one context goes through all events.
  unfoldable pub receive_each :
      List (ServerEvent E)
      → List ℕ
      → Resources E Q Cursor
      → RepliconClient Float
      → Progress (Resources E Q Cursor × RepliconClient Float)
  unfolding resource
  receive_each [] invalid_entities world client = done (world, client)
  receive_each (event_data ∷ rest) invalid_entities world client =
      resume (returned (resource event_data.events_id world.events)) (λ events.
        resume (returned (resource event_data.queue_id world.queues)) (λ queue.
          resume
            (receive_typed m event_data entity_map read_tick
              (record { events = events; queue = queue; invalid_entities = invalid_entities })
              client update_tick)
            (λ r.
              receive_each rest r.0.invalid_entities
                (record world {
                  events = map_insert event_data.events_id r.0.events world.events;
                  queues = map_insert event_data.queue_id r.0.queue world.queues;
                })
                r.1)))

  unfoldable pub receive_from_server :
      EventRegistry E
      → Resources E Q Cursor
      → RepliconClient Float
      → Progress (Resources E Q Cursor × RepliconClient Float)
  unfolding receive_each
  receive_from_server registry world client = receive_each registry.server [] world client
