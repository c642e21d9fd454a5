-- ===== src/Events.antt =====
-- core/event/server_event.rs: the server's events that wait for replication, and the choice of the
-- clients that get them. `serialize` stands for `bincode` on a tick: it writes `tick_size` bytes.
-- Serialization into memory does not fail here. The cache of sets is an optimization of memory: a
-- set is cleared before it is cached, so that a set from the cache is an empty one.
pub mod Recipients
pub mod Queue
pub mod Delivered
pub mod Sending
pub mod Buffering
pub mod Arrival
pub mod Journey
pub mod Mapping
pub mod FromClients
pub mod Uplink
pub mod Registry
pub mod Reset
mod Examples
mod ClientExamples
mod LinkExamples
use bevy_mod_replication.Common.{
  ℕ, Bool, true, false, not, ◌&&◌, Option, none, some, List, [], ◌∷◌, ◌++◌, drop, ◌==◌,
  if◌then◌else◌, Outcome, ok, panic,
}
use bevy_mod_replication.Common.Maps.{contains, set_insert}
use bevy_mod_replication.Tick.{RepliconTick}
use bevy_mod_replication.Clients.{ReplicatedClient}
use bevy_mod_replication.Clients.Registry.{ReplicatedClients, get_client}
use bevy_mod_replication.Backend.Server.{Bytes, RepliconServer, send as server_send}

pub data SendMode : Type 0 where
  broadcast : SendMode
  broadcast_except : ℕ → SendMode
  direct : ℕ → SendMode

pub data SerializedMessage : Type 0 where
  raw : Bytes → SerializedMessage
  resolved : RepliconTick → Bytes → SerializedMessage

pub record BufferedServerEvent : Type 0 where
  pub mode : SendMode
  pub channel : ℕ
  pub message : SerializedMessage

pub record BufferedServerEventSet : Type 0 where
  pub events : List BufferedServerEvent
  pub excluded : List ℕ

abbrev pub empty_set : BufferedServerEventSet
empty_set = record { events = []; excluded = [] }

-- `ClientId::SERVER`.
abbrev pub server_id : ℕ
server_id = 0

-- `resend_locally_typed`: whether the server itself gets the event.
unfoldable pub is_local : SendMode → Bool
is_local SendMode.broadcast = true
is_local (SendMode.broadcast_except client_id) = not (client_id == server_id)
is_local (SendMode.direct client_id) = client_id == server_id

-- The buffer is a list with its last set, the active one, last.
unfoldable pub start_tick : List BufferedServerEventSet → List BufferedServerEventSet
start_tick buffer = buffer ++ (empty_set ∷ [])

unfoldable pub insert :
    List BufferedServerEventSet → BufferedServerEvent → Outcome (List BufferedServerEventSet)
insert [] event = panic
insert (active ∷ []) event = ok (record active { events = active.events ++ (event ∷ []) } ∷ [])
insert (set ∷ next ∷ rest) event = elim (insert (next ∷ rest) event) [
  | panic ↦ panic
  | ok sets ↦ ok (set ∷ sets)
]

unfoldable pub exclude_client : List BufferedServerEventSet → ℕ → List BufferedServerEventSet
exclude_client [] client = []
exclude_client (set ∷ rest) client =
    record set { excluded = set_insert client set.excluded } ∷ exclude_client rest client

module _ (tick_size : ℕ) (serialize : RepliconTick → Bytes) where
  -- The bytes that are sent, and the message with its tick resolved. A raw message starts with
  -- `tick_size` bytes that the tick is written over.
  unfoldable pub get_bytes : SerializedMessage → RepliconTick → SerializedMessage × Bytes
  get_bytes (SerializedMessage.raw message) update_tick =
      let bytes = serialize update_tick ++ drop tick_size message in
      (SerializedMessage.resolved update_tick bytes, bytes)
  get_bytes (SerializedMessage.resolved tick bytes) update_tick =
      if tick == update_tick
      then (SerializedMessage.resolved tick bytes, bytes)
      else (SerializedMessage.resolved tick bytes, serialize update_tick ++ drop tick_size bytes)

  unfoldable pub send :
      BufferedServerEvent → RepliconServer → ReplicatedClient → BufferedServerEvent × RepliconServer
  unfolding get_bytes
  send event server client =
      let r = get_bytes event.message client.update_tick in
      (record event { message = r.0 }, server_send server client.id event.channel r.1)

  -- The loop over the clients that are not excluded, which `skip` leaves out one of.
  unfoldable pub send_each :
      (ℕ → Bool) → BufferedServerEvent → RepliconServer → List ReplicatedClient → RepliconServer
  send_each skip event server [] = server
  send_each skip event server (client ∷ rest) =
      let r = send event server client in
      let sent = send_each skip r.0 r.1 rest in
      let skipped = send_each skip event server rest in if skip client.id then skipped else sent

  unfoldable pub send_event :
      List ℕ → ReplicatedClients → BufferedServerEvent → RepliconServer → RepliconServer
  unfolding send_each
  send_event excluded clients event server = elim event.mode [
    | SendMode.broadcast ↦ send_each (λ id. contains id excluded) event server clients.clients
    | SendMode.broadcast_except client_id ↦
        send_each (λ id. if contains id excluded then true else id == client_id) event server
          clients.clients
    | SendMode.direct client_id ↦
        if not (client_id == server_id) && not (contains client_id excluded)
        then (elim (get_client clients client_id) [
          | none ↦ server
          | some client ↦ (send event server client).1
        ])
        else server
  ]

  unfoldable pub send_events :
      List ℕ → ReplicatedClients → List BufferedServerEvent → RepliconServer → RepliconServer
  unfolding send_event
  send_events excluded clients [] server = server
  send_events excluded clients (event ∷ rest) server =
      send_events excluded clients rest (send_event excluded clients event server)

  unfoldable pub send_all :
      List BufferedServerEventSet
      → RepliconServer
      → ReplicatedClients
      → List BufferedServerEventSet × RepliconServer
  unfolding send_events
  send_all [] server clients = ([], server)
  send_all (set ∷ rest) server clients =
      send_all rest (send_events set.excluded clients set.events server) clients
