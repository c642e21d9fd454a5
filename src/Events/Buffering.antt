-- ===== src/Events/Buffering.antt =====
-- core/event/server_event.rs: which events are buffered, and which the server gets itself.
use bevy_mod_replication.Common.{
  ℕ, ◌≡◌, refl, false, some, List, [], ◌∷◌, ◌++◌, map, ok, append-nil, append_assoc, Bool-cases,
  inl, inr,
}
use bevy_mod_replication.Backend.Server.{Bytes, RepliconServer}
use bevy_mod_replication.Events.{BufferedServerEventSet, is_local}
use bevy_mod_replication.Events.Queue.{ServerEvent, is_independent}
use bevy_mod_replication.Events.Sending.{
  ToClients, serialize_with_padding, buffer_event, send_or_buffer_typed, resend_locally_typed,
  padded, local_events, serialize-body, insert-last,
}

module _ {E : Type 0} (event_data : ServerEvent E) (body : E → Bytes)
    (serializes : (event : E) → event_data.serialize event ≡ some (body event)) where
  -- Where every event can be serialized: events that are not independent are put behind the events of
  -- the active set, in their order, each with its mode, the channel and room for the tick in front of its
  -- bytes. Nothing is sent, and the other sets stay.
  pub send_or_buffer_typed-buffered :
      (tick_size : ℕ) (events : List (ToClients E)) (server : RepliconServer) (connected : List ℕ)
      (sets : List BufferedServerEventSet) (active : BufferedServerEventSet)
      → is_independent event_data ≡ false
      → send_or_buffer_typed event_data tick_size events server connected (sets ++ (active ∷ []))
        ≡ ok (
          server,
          sets
              ++ (record active {
                events = active.events ++ map (padded event_data.channel_id tick_size body) events;
              }
                  ∷ []),
        )
  unfolding send_or_buffer_typed buffer_event serialize_with_padding
  send_or_buffer_typed-buffered tick_size [] server connected sets active waits =
      rw (append-nil active.events) refl
  send_or_buffer_typed-buffered tick_size (to_clients ∷ rest) server connected sets active waits =
      let one = padded event_data.channel_id tick_size body to_clients in
      rw
        (
          waits,
          serialize-body event_data body serializes to_clients.event,
          insert-last sets active one,
        )
        (rw
          (
            send_or_buffer_typed-buffered tick_size rest server connected sets
                (record active { events = active.events ++ (one ∷ []) }) waits,
            append_assoc active.events (one ∷ [])
                (map (padded event_data.channel_id tick_size body) rest),
          )
          refl)

module _ {E : Type 0} where
  -- The server drains the events and gets those that are broadcast, those that leave out another client
  -- and those that are for itself, in their order.
  pub resend_locally_typed-local_events :
      (to_clients : List (ToClients E)) (events : List E)
      → resend_locally_typed to_clients events ≡ ([], events ++ local_events to_clients)
  unfolding resend_locally_typed local_events
  resend_locally_typed-local_events [] events = rw (append-nil events) refl
  resend_locally_typed-local_events (one ∷ rest) events = elim (Bool-cases (is_local one.mode)) [
    | inl local ↦
        rw
          (
            local,
            resend_locally_typed-local_events rest (events ++ (one.event ∷ [])),
            append_assoc events (one.event ∷ []) (local_events rest),
          )
          refl
    | inr remote ↦ rw remote (resend_locally_typed-local_events rest events)
  ]
