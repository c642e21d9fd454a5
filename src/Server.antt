-- ===== src/Server.antt =====
-- server.rs: the server's handlers of connections and acknowledgments, with what they change, and the
-- small resources beside them: core/connected_clients.rs, server/server_tick.rs and
-- server/client_entity_map.rs. The clock's time is an argument.
pub mod Collect
pub mod Atomic
pub mod OneMessage
pub mod Handlers
pub mod Acks
mod Examples
use bevy_mod_replication.Common.{
  ℕ, zero, suc, ◌+◌, ◌-◌, Bool, true, false, Option, none, some, List, [], ◌∷◌, ◌++◌, length, ltb,
  ◌==◌, if◌then◌else◌, Outcome, ok, panic, ◌>>=◌,
}
use bevy_mod_replication.Common.Maps.{lookup, insert, erase}
use bevy_mod_replication.Tick.{RepliconTick, add}
use bevy_mod_replication.Clients.{
  ReplicatedClient, ClientBuffers, ack_mutate_message, cleanup_older_mutations,
}
use bevy_mod_replication.Clients.Registry.{
  ReplicatedClients, get_client, client, add as replicated_add, remove as replicated_remove,
  clear as replicated_clear,
}
use bevy_mod_replication.Backend.Server.{
  Bytes, RepliconServer, setup_client_channels, remove_client, receive,
}
use bevy_mod_replication.Events.{BufferedServerEventSet, exclude_client}
use bevy_mod_replication.Wire.{Wire, Decoded, value, error, panicked}

-- The resources of the handlers; a connected client is its id.
pub record Server : Type 0 where
  pub server_tick : RepliconTick
  pub entity_map : List (ℕ × List (ℕ × ℕ))
  pub connected_clients : List ℕ
  pub replicated_clients : ReplicatedClients
  pub client_buffers : ClientBuffers
  pub backend : RepliconServer
  pub buffered_events : List BufferedServerEventSet

-- `ServerEvent`.
pub data ServerEvent : Type 0 where
  client_connected : ℕ → ServerEvent
  client_disconnected : ℕ → ServerEvent

-- `ConnectedClients::add` and `remove`; a client that is not there is a panic.
unfoldable pub connected_add : List ℕ → ℕ → List ℕ
connected_add clients client_id = clients ++ (client_id ∷ [])

unfoldable pub connected_remove : List ℕ → ℕ → Outcome (List ℕ)
connected_remove [] client_id = panic
connected_remove (c ∷ cs) client_id =
    let rest = connected_remove cs client_id in
    if c == client_id then ok cs else elim rest [ panic ↦ panic | ok others ↦ ok (c ∷ others) ]

-- `ClientEntityMap::insert`.
unfoldable pub entity_map_insert : List (ℕ × List (ℕ × ℕ)) → ℕ → ℕ × ℕ → List (ℕ × List (ℕ × ℕ))
entity_map_insert map client_id mapping = elim (lookup client_id map) [
  | none ↦ insert client_id (mapping ∷ []) map
  | some mappings ↦ insert client_id (mappings ++ (mapping ∷ [])) map
]

unfoldable pub increment_by : RepliconTick → ℕ → RepliconTick
increment_by tick n = add tick n

unfoldable pub increment_tick : Server → Server
unfolding increment_by
increment_tick s = record s { server_tick = increment_by s.server_tick 1 }

unfoldable pub setup_channels : Server → ℕ → Server
setup_channels s channels_count = record s {
  backend = setup_client_channels s.backend channels_count;
}

unfoldable pub enable_replication : Server → ℕ → Server
enable_replication s client_id =
    let r = replicated_add s.replicated_clients s.client_buffers client_id in
    record s { replicated_clients = r.0; client_buffers = r.1 }

-- With the clients that replication is triggered for.
unfoldable pub handle_connections : Server → ServerEvent → Outcome (Server × List ℕ)
unfolding connected_add connected_remove
handle_connections s (ServerEvent.client_disconnected client_id) =
    connected_remove s.connected_clients client_id >>= λ connected.
    (let r = replicated_remove s.replicated_clients s.client_buffers client_id in
      ok (
        record s {
          entity_map = erase client_id s.entity_map;
          connected_clients = connected;
          replicated_clients = r.0;
          client_buffers = r.1;
          backend = remove_client s.backend client_id;
        },
        [],
      ))
handle_connections s (ServerEvent.client_connected client_id) = ok (
  record s {
    connected_clients = connected_add s.connected_clients client_id;
    buffered_events = exclude_client s.buffered_events client_id;
  },
  if s.replicated_clients.replicate_after_connect then client_id ∷ [] else [],
)

-- An event with what it triggers.
unfoldable pub trigger_all : Server → List ℕ → Server
trigger_all s [] = s
trigger_all s (c ∷ cs) = trigger_all (enable_replication s c) cs

unfoldable pub trigger : Server → ServerEvent → Outcome Server
unfolding handle_connections trigger_all
trigger s event = handle_connections s event >>= λ r. ok (trigger_all r.0 r.1)

unfoldable pub cleanup_all :
    ℕ → List ReplicatedClient → ClientBuffers → List ReplicatedClient × ClientBuffers
cleanup_all min_timestamp [] b = ([], b)
cleanup_all min_timestamp (c ∷ cs) b =
    let r = cleanup_older_mutations c b min_timestamp in
    let rest = cleanup_all min_timestamp cs r.1 in (r.0 ∷ rest.0, rest.1)

-- `saturating_sub` stops at zero.
unfoldable pub cleanup_acks : ℕ → Server → ℕ → Server
unfolding cleanup_all
cleanup_acks mutations_timeout s elapsed =
    let r =
      cleanup_all (elapsed - mutations_timeout) s.replicated_clients.clients s.client_buffers in
    record s {
      replicated_clients = record (s.replicated_clients) { clients = r.0 };
      client_buffers = r.1;
    }

unfoldable pub reset : Server → Server
reset s =
    let r = replicated_clear s.replicated_clients s.client_buffers in
    record s {
      server_tick = 0;
      entity_map = [];
      replicated_clients = r.0;
      client_buffers = r.1;
      buffered_events = [];
    }

-- A change of the client with an id.
unfoldable pub update_client : ReplicatedClient → List ReplicatedClient → List ReplicatedClient
update_client c [] = []
update_client c (d ∷ ds) = if d.id == c.id then c ∷ ds else d ∷ update_client c ds

-- How the reading of a message of acknowledgments ends.
pub data Acked : Type 0 where
  acked : ReplicatedClients → ClientBuffers → Acked
  ack_panic : Acked
  ack_unfinished : Acked

abbrev pub ack_bind : Acked → (ReplicatedClients → ClientBuffers → Acked) → Acked
ack_bind (acked clients buffers) f = f clients buffers
ack_bind ack_panic f = ack_panic
ack_bind ack_unfinished f = ack_unfinished

-- `after_error` is what a failed read leaves of the bytes. Fuel is the number of bytes.
module _ {Component : Type 0} (w : Wire Component) (after_error : Bytes → Bytes)
    (is_newer_than : ℕ → ℕ → ℕ → Bool) (this_run : ℕ) where
  -- `client_mut` panics where the client does not replicate.
  unfoldable pub ack : ℕ → ℕ → ReplicatedClients → ClientBuffers → Acked
  unfolding update_client
  ack client_id mutate_index clients buffers = elim (client clients client_id) [
    | panic ↦ ack_panic
    | ok c ↦
        let r = ack_mutate_message is_newer_than c buffers this_run mutate_index in
        acked (record clients { clients = update_client r.0 clients.clients }) r.1
  ]

  unfoldable pub read_acks : ℕ → ℕ → Bytes → ReplicatedClients → ClientBuffers → Acked
  unfolding ack
  read_acks fuel client_id [] clients buffers = acked clients buffers
  read_acks zero client_id (b ∷ bytes) clients buffers = ack_unfinished
  read_acks (suc fuel) client_id (b ∷ bytes) clients buffers = elim (w.read_ack (b ∷ bytes)) [
    | value mutate_index rest ↦
        ack_bind (ack client_id mutate_index clients buffers) (read_acks fuel client_id rest)
    | error ↦ read_acks fuel client_id (after_error (b ∷ bytes)) clients buffers
    | panicked ↦ ack_panic
  ]

  unfoldable pub receive_messages : List (ℕ × Bytes) → ReplicatedClients → ClientBuffers → Acked
  unfolding read_acks
  receive_messages [] clients buffers = acked clients buffers
  receive_messages (m ∷ ms) clients buffers =
      ack_bind (read_acks (length m.1) m.0 m.1 clients buffers) (receive_messages ms)

  -- Channel 0 is `ReplicationChannel::Updates`. `none` where a loop is out of fuel.
  unfoldable pub receive_acks : Server → Outcome (Option Server)
  unfolding receive_messages
  receive_acks s = receive s.backend 0 >>= λ r.
      elim (receive_messages r.1 s.replicated_clients s.client_buffers) [
        | acked clients buffers ↦ ok (
            some
              (record s { backend = r.0; replicated_clients = clients; client_buffers = buffers }))
        | ack_panic ↦ panic
        | ack_unfinished ↦ ok none
      ]
