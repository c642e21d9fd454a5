-- ===== src/Events/Sending.antt =====
-- core/event/server_event.rs: how the server's events of a type are sent or buffered, and sent to the
-- server itself. The events are those that the engine's `Events` hold; the connected clients are their ids.
use bevy_mod_replication.Common.{
  ℕ, ◌≡◌, refl, ap, ◌∙◌, Bool, true, false, not, none, some, List, [], ◌∷◌, ◌++◌, map, retain,
  replicate, ◌==◌, if◌then◌else◌, Outcome, ok, panic, ◌>>=◌, append-nil, append_assoc, Bool-cases,
  inl, inr, arith,
}
use bevy_mod_replication.Backend.Server.{Bytes, RepliconServer, send as server_send}
use bevy_mod_replication.Events.{
  SendMode, SerializedMessage, BufferedServerEvent, BufferedServerEventSet, server_id, is_local,
  insert,
}
use bevy_mod_replication.Events.Queue.{ServerEvent, is_independent}

pub record ToClients (E : Type 0) : Type 0 where
  pub event : E
  pub mode : SendMode

-- `BufferedServerEventSet::clear` and `BufferedServerEvents::clear`.
unfoldable pub clear_set : BufferedServerEventSet → BufferedServerEventSet
clear_set set = record set { events = []; excluded = [] }

unfoldable pub clear : List BufferedServerEventSet → List BufferedServerEventSet
clear buffer = []

-- `for client in connected_clients.iter()`, with a client left out.
unfoldable pub send_to_each : (ℕ → Bool) → ℕ → Bytes → RepliconServer → List ℕ → RepliconServer
send_to_each skip channel message server [] = server
send_to_each skip channel message server (id ∷ ids) =
    send_to_each skip channel message
      (if skip id then server else server_send server id channel message) ids

unfoldable pub send_by_mode : SendMode → ℕ → Bytes → RepliconServer → List ℕ → RepliconServer
unfolding send_to_each
send_by_mode SendMode.broadcast channel message server connected =
    send_to_each (λ id. false) channel message server connected
send_by_mode (SendMode.broadcast_except client_id) channel message server connected =
    send_to_each (λ id. id == client_id) channel message server connected
send_by_mode (SendMode.direct client_id) channel message server connected =
    if not (client_id == server_id) then server_send server client_id channel message else server

module _ {E : Type 0} (event_data : ServerEvent E) where
  -- A failed serialization is a panic of the caller's `expect`.
  unfoldable pub serialize : E → Outcome Bytes
  serialize event = elim (event_data.serialize event) [ none ↦ panic | some message ↦ ok message ]

  unfoldable pub send_independent_event :
      E → SendMode → RepliconServer → List ℕ → Outcome RepliconServer
  unfolding send_by_mode
  send_independent_event event mode server connected = serialize event >>= λ message.
      ok (send_by_mode mode event_data.channel_id message server connected)

  -- `tick_size` is the size of a tick in memory.
  unfoldable pub serialize_with_padding : ℕ → E → Outcome SerializedMessage
  serialize_with_padding tick_size event =
      serialize event >>= λ message. ok (SerializedMessage.raw (replicate tick_size 0 ++ message))

  unfoldable pub buffer_event :
      ℕ → E → SendMode → List BufferedServerEventSet → Outcome (List BufferedServerEventSet)
  unfolding serialize_with_padding
  buffer_event tick_size event mode buffer = serialize_with_padding tick_size event >>= λ message.
      insert buffer (record { mode = mode; channel = event_data.channel_id; message = message })

  unfoldable pub send_or_buffer_typed :
      ℕ
      → List (ToClients E)
      → RepliconServer
      → List ℕ
      → List BufferedServerEventSet
      → Outcome (RepliconServer × List BufferedServerEventSet)
  unfolding send_independent_event buffer_event
  send_or_buffer_typed tick_size [] server connected buffer = ok (server, buffer)
  send_or_buffer_typed tick_size (to_clients ∷ rest) server connected buffer =
      if is_independent event_data
      then (send_independent_event to_clients.event to_clients.mode server connected >>= λ sent.
          send_or_buffer_typed tick_size rest sent connected buffer)
      else (buffer_event tick_size to_clients.event to_clients.mode buffer >>= λ buffered.
          send_or_buffer_typed tick_size rest server connected buffered)

module _ {E : Type 0} where
  -- The events that are left to the clients, which is none, and the server's.
  unfoldable pub resend_locally_typed : List (ToClients E) → List E → List (ToClients E) × List E
  resend_locally_typed [] events = ([], events)
  resend_locally_typed (to_clients ∷ rest) events =
      resend_locally_typed rest
        (if is_local to_clients.mode then events ++ (to_clients.event ∷ []) else events)

-- The clients that an independent event is sent to.
unfoldable pub independent_recipients : SendMode → List ℕ → List ℕ
independent_recipients SendMode.broadcast connected = connected
independent_recipients (SendMode.broadcast_except client_id) connected =
    retain (λ id. not (id == client_id)) connected
independent_recipients (SendMode.direct client_id) connected =
    if client_id == server_id then [] else client_id ∷ []

server_send-sent :
    (server : RepliconServer) (id channel : ℕ) (message : Bytes)
    → server.running ≡ true
    → server_send server id channel message
      ≡ record server { sent_messages = server.sent_messages ++ ((id, channel, message) ∷ []) }
unfolding server_send
server_send-sent server id channel message on = ground (arith, on)

abbrev addressed : ℕ → Bytes → ℕ → ℕ × ℕ × Bytes
addressed channel message id = (id, channel, message)

send_to_each-sent :
    (skip : ℕ → Bool) (channel : ℕ) (message : Bytes) (server : RepliconServer) (ids : List ℕ)
    → server.running ≡ true
    → send_to_each skip channel message server ids ≡ record server {
      sent_messages =
          server.sent_messages
          ++ map (addressed channel message) (retain (λ id. not (skip id)) ids);
    }
unfolding send_to_each
send_to_each-sent skip channel message server [] on = rw (append-nil server.sent_messages) refl
send_to_each-sent skip channel message server (id ∷ ids) on = elim (Bool-cases (skip id)) [
  | inl out ↦ rw out (send_to_each-sent skip channel message server ids on)
  | inr kept ↦
      rw (kept, server_send-sent server id channel message on)
        (rw
          (
            send_to_each-sent skip channel message
                (record server {
                  sent_messages = server.sent_messages ++ ((id, channel, message) ∷ []);
                })
                ids on,
            append_assoc server.sent_messages ((id, channel, message) ∷ [])
                (map (addressed channel message) (retain (λ x. not (skip x)) ids)),
          )
          refl)
]

retain-all : (ids : List ℕ) → retain (λ id. true) ids ≡ ids
retain-all [] = refl
retain-all (id ∷ ids) = rw (retain-all ids) refl

send_by_mode-sent :
    (mode : SendMode) (channel : ℕ) (message : Bytes) (server : RepliconServer) (connected : List ℕ)
    → server.running ≡ true
    → send_by_mode mode channel message server connected ≡ record server {
      sent_messages =
          server.sent_messages
          ++ map (addressed channel message) (independent_recipients mode connected);
    }
unfolding send_by_mode independent_recipients
send_by_mode-sent SendMode.broadcast channel message server connected on =
    send_to_each-sent (λ id. false) channel message server connected on
    ∙ ap
        (λ ids. record server {
          sent_messages = server.sent_messages ++ map (addressed channel message) ids;
        })
        (retain-all connected)
send_by_mode-sent (SendMode.broadcast_except client_id) channel message server connected on =
    send_to_each-sent (λ id. id == client_id) channel message server connected on
send_by_mode-sent (SendMode.direct client_id) channel message server connected on =
    elim (Bool-cases (client_id == server_id)) [
      | inl local ↦ rw (local, append-nil server.sent_messages) refl
      | inr remote ↦ rw remote (server_send-sent server client_id channel message on)
    ]

-- The bytes that the events are sent with, for each client in turn.
unfoldable pub independent_messages :
    {E : Type 0} → ℕ → (E → Bytes) → List ℕ → List (ToClients E) → List (ℕ × ℕ × Bytes)
independent_messages channel body connected [] = []
independent_messages channel body connected (to_clients ∷ rest) =
    map (addressed channel (body to_clients.event))
      (independent_recipients to_clients.mode connected)
    ++ independent_messages channel body connected rest

-- The events as they are buffered, with room for the tick.
abbrev pub padded : {E : Type 0} → ℕ → ℕ → (E → Bytes) → ToClients E → BufferedServerEvent
padded channel tick_size body to_clients = record {
  mode = to_clients.mode;
  channel = channel;
  message = SerializedMessage.raw (replicate tick_size 0 ++ body to_clients.event);
}

-- The events that the server gets itself.
unfoldable pub local_events : {E : Type 0} → List (ToClients E) → List E
local_events [] = []
local_events (to_clients ∷ rest) =
    (if is_local to_clients.mode then to_clients.event ∷ [] else []) ++ local_events rest

module _ {E : Type 0} (event_data : ServerEvent E) (body : E → Bytes)
    (serializes : (event : E) → event_data.serialize event ≡ some (body event)) where
  pub serialize-body : (event : E) → serialize event_data event ≡ ok (body event)
  unfolding serialize
  serialize-body event = rw (serializes event, serialize) refl

  -- Where the server runs and every event can be serialized: independent events are sent at once, in their
  -- order and behind what waits to be sent, to the connected clients, without the one that the mode leaves out, or
  -- to the one client that it names, connected or not, unless that is the server; nothing is
  -- buffered.
  pub send_or_buffer_typed-independent :
      (tick_size : ℕ) (events : List (ToClients E)) (server : RepliconServer) (connected : List ℕ)
      (buffer : List BufferedServerEventSet)
      → is_independent event_data ≡ true
      → server.running ≡ true
      → send_or_buffer_typed event_data tick_size events server connected buffer
        ≡ ok (
          record server {
            sent_messages =
                server.sent_messages
                ++ independent_messages event_data.channel_id body connected events;
          },
          buffer,
        )
  unfolding send_or_buffer_typed send_independent_event independent_messages
  send_or_buffer_typed-independent tick_size [] server connected buffer at_once on =
      rw (append-nil server.sent_messages) refl
  send_or_buffer_typed-independent tick_size (to_clients ∷ rest) server connected buffer at_once
        on =
      let one =
        map (addressed event_data.channel_id (body to_clients.event))
          (independent_recipients to_clients.mode connected) in
      rw
        (
          at_once,
          serialize-body to_clients.event,
          send_by_mode-sent to_clients.mode event_data.channel_id (body to_clients.event) server
              connected on,
        )
        (rw
          (
            send_or_buffer_typed-independent tick_size rest
                (record server { sent_messages = server.sent_messages ++ one }) connected buffer
                at_once on,
            append_assoc server.sent_messages one
                (independent_messages event_data.channel_id body connected rest),
          )
          refl)

pub insert-last :
    (sets : List BufferedServerEventSet) (active : BufferedServerEventSet)
    (event : BufferedServerEvent)
    → insert (sets ++ (active ∷ [])) event
      ≡ ok (sets ++ (record active { events = active.events ++ (event ∷ []) } ∷ []))
unfolding insert
insert-last [] active event = refl
insert-last (set ∷ []) active event = refl
insert-last (set ∷ next ∷ rest) active event =
    rw (insert-last (next ∷ rest) active event, insert) refl
