-- ===== src/Events/Uplink.antt =====
-- core/event/client_event.rs: events from a client's `send_typed` to the server's `receive_typed`.
use bevy_mod_replication.Common.{
  ℕ, ◌≡◌, ◌≢◌, refl, true, List, [], ◌∷◌, ◌++◌, map, ok, append-nil, append_assoc,
}
use bevy_mod_replication.EntityMap.{ServerEntityMap}
use bevy_mod_replication.Backend.Server.{Bytes, RepliconServer, receive as server_receive}
use bevy_mod_replication.Backend.Client.{RepliconClient, is_connected, send as client_send}
use bevy_mod_replication.Wire.{Decoded, value, error, panicked}
use bevy_mod_replication.Events.FromClients.{
  ClientEvent, FromClient, send_events, send_typed, apply_decoded, receive_events, receive_typed,
}

-- The messages as the server receives them, each with the client that has sent it.
abbrev pub received_from : ℕ → List (ℕ × Bytes) → List (ℕ × Bytes)
received_from client_id messages = map (λ m. (client_id, m.1)) messages

abbrev pub from_client : {E : Type 0} → ℕ → E → FromClient E
from_client client_id event = record { client_id = client_id; event = event }

-- The messages of the events.
abbrev pub messages_of : {E : Type 0} → ClientEvent E → (E → Bytes) → List E → List (ℕ × Bytes)
messages_of event_data body events = map (λ event. (event_data.channel_id, body event)) events

client_send-sent :
    {Float : Type 0} (client : RepliconClient Float) (channel : ℕ) (message : Bytes)
    → is_connected client ≡ true
    → client_send client channel message
      ≡ record client { sent_messages = client.sent_messages ++ ((channel, message) ∷ []) }
unfolding client_send is_connected
client_send-sent client channel message on = rw on refl

module _ {E : Type 0} (event_data : ClientEvent E) (entity_map : ServerEntityMap) (body : E → Bytes)
    (serializes : (event : E) → event_data.serialize entity_map event ≡ ok (body event)) where
  send_events-sent :
      {Float : Type 0} (events : List E) (client : RepliconClient Float)
      → is_connected client ≡ true
      → send_events event_data entity_map events client
        ≡ ok (record client {
          sent_messages = client.sent_messages ++ messages_of event_data body events;
        })
  unfolding send_events is_connected
  send_events-sent [] client on = rw (append-nil client.sent_messages) refl
  send_events-sent (event ∷ rest) client on =
      let one : ℕ × Bytes = (event_data.channel_id, body event) in
      rw (serializes event, client_send-sent client event_data.channel_id (body event) on)
        (rw
          (
            send_events-sent rest
                (record client { sent_messages = client.sent_messages ++ (one ∷ []) }) on,
            append_assoc client.sent_messages (one ∷ []) (messages_of event_data body rest),
          )
          refl)

  module _ (arrives : E → E) (rest_of : E → Bytes)
      (reads : (event : E)
        → event_data.deserialize (body event) ≡ value (arrives event) (rest_of event)) where
    receive_events-sent :
        (client_id : ℕ) (sent : List E) (events : List (FromClient E))
        → receive_events event_data events
            (received_from client_id (messages_of event_data body sent))
          ≡ ok (events ++ map (λ event. from_client client_id (arrives event)) sent)
    unfolding receive_events apply_decoded
    receive_events-sent client_id [] events = rw (append-nil events) refl
    receive_events-sent client_id (event ∷ rest) events =
        let one = from_client client_id (arrives event) in
        rw
          (
            reads event,
            receive_events-sent client_id rest (events ++ (one ∷ [])),
            append_assoc events (one ∷ [])
                (map (λ later. from_client client_id (arrives later)) rest),
          )
          refl

    -- Where the event's functions write and read it back as the server is to see it: a connected client
    -- that sends its unread events puts one message for each behind its others, in their order, and
    -- a server whose channel holds exactly these messages, marked with the client, receives
    -- these events in their order, each with the client it is from, and empties the channel.
    pub send_typed-receive_typed :
        {Float Cursor : Type 0} (read : Cursor → List E → List E × Cursor) (events : List E)
        (reader : Cursor) (client : RepliconClient Float) (client_id : ℕ)
        (client_events : List (FromClient E)) (server emptied : RepliconServer)
        → is_connected client ≡ true
        → server_receive server event_data.channel_id
          ≡ ok (
            emptied,
            received_from client_id (messages_of event_data body (read reader events).0),
          )
        → (send_typed read event_data entity_map events reader client
            ≡ ok (
              record client {
                sent_messages =
                    client.sent_messages ++ messages_of event_data body (read reader events).0;
              },
              (read reader events).1,
            ))
          × (receive_typed event_data client_events server
              ≡ ok (
                client_events
                    ++ map (λ event. from_client client_id (arrives event)) (read reader events).0,
                emptied,
              ))
    unfolding send_typed receive_typed
    send_typed-receive_typed read events reader client client_id client_events server emptied on
          got =
        (
          rw (send_events-sent (read reader events).0 client on) refl,
          rw (got, receive_events-sent client_id (read reader events).0 client_events) refl,
        )

-- What is received of a message: its event with the client, or nothing where it cannot be read.
abbrev readable : {E : Type 0} → ℕ → Decoded E → List (FromClient E)
readable client_id (value event rest) = from_client client_id event ∷ []
readable client_id error = []
readable client_id panicked = []

module _ {E : Type 0} (event_data : ClientEvent E)
    (safe : (message : Bytes) → event_data.deserialize message ≢ panicked) where
  unfoldable pub readable_events : List (ℕ × Bytes) → List (FromClient E)
  readable_events [] = []
  readable_events (m ∷ rest) = readable m.0 (event_data.deserialize m.1) ++ readable_events rest

  apply_decoded-readable :
      (events : List (FromClient E)) (client_id : ℕ) (decoded : Decoded E)
      → decoded ≢ panicked
      → apply_decoded events client_id decoded ≡ ok (events ++ readable client_id decoded)
  unfolding apply_decoded
  apply_decoded-readable events client_id (value event rest) h = refl
  apply_decoded-readable events client_id error h = rw (append-nil events) refl
  apply_decoded-readable events client_id panicked h = absurd (h refl)

  -- Where reading an event does not panic: whatever bytes clients have sent, receiving them panics
  -- nowhere, and gives one event for each message that can be read, in the order of the messages and
  -- with its client; a message that cannot be read is skipped.
  pub receive_events-readable :
      (messages : List (ℕ × Bytes)) (events : List (FromClient E))
      → receive_events event_data events messages ≡ ok (events ++ readable_events messages)
  unfolding receive_events readable_events
  receive_events-readable [] events = rw (append-nil events) refl
  receive_events-readable (m ∷ rest) events =
      let one = readable m.0 (event_data.deserialize m.1) in
      rw
        (
          apply_decoded-readable events m.0 (event_data.deserialize m.1) (safe m.1),
          receive_events-readable rest (events ++ one),
          append_assoc events one (readable_events rest),
        )
        refl
