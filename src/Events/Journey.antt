-- ===== src/Events/Journey.antt =====
-- core/event/server_event.rs: a server's event from the bytes that a client is sent to the client's events.
use bevy_mod_replication.Common.{
  ℕ, ◌≡◌, ◌≢◌, refl, sym, ap, subst, ◌∙◌, true, false, some, length, List, [], ◌∷◌, ◌++◌, replicate,
  length-replicate, All, if◌then◌else◌, ok, append-nil, Bool-cases, inl, inr,
}
use bevy_mod_replication.Tick.{RepliconTick, tick_gt}
use bevy_mod_replication.EntityMap.{ServerEntityMap}
use bevy_mod_replication.Clients.{ReplicatedClient}
use bevy_mod_replication.Backend.Server.{Bytes, RepliconServer}
use bevy_mod_replication.Backend.Client.{RepliconClient, receive as client_receive}
use bevy_mod_replication.Wire.{value, panicked, Reader}
use bevy_mod_replication.Events.{SerializedMessage, BufferedServerEvent, send}
use bevy_mod_replication.Events.Recipients.{payload, IsResolved, drop-append, send-sent}
use bevy_mod_replication.Events.Queue.{
  Multimap, IsMultimap, done, ServerEvent, is_independent, deserialize, receive_typed,
}
use bevy_mod_replication.Events.Sending.{
  ToClients, serialize_with_padding, serialize as event_serialize,
}
use bevy_mod_replication.Events.Arrival.{IsDue, receive_typed-drains, receive_typed-empty}
use bevy_mod_replication.Events.Delivered.{
  Entries, IsNew, event_of, events_of, ready_event, late_entry, arrived_events, arrived_late, state,
}

-- What receiving one message comes to: the events, and what is queued.
abbrev received : {E : Type 0} → RepliconTick → E → RepliconTick → List E → List E
received t event u events = if tick_gt t u then events else events ++ (event ∷ [])

abbrev queued : RepliconTick → Bytes → RepliconTick → Entries
queued t body u = if tick_gt t u then (t, body) ∷ [] else []

last-eq : {A : Type 0} (xs : List A) (a b : A) → xs ++ (a ∷ []) ≡ xs ++ (b ∷ []) → a ≡ b
last-eq [] a b h = cc
last-eq (x ∷ xs) a b h = let rest : xs ++ (a ∷ []) ≡ xs ++ (b ∷ []) = cc in last-eq xs a b rest

-- The bytes that the second of two clients is sent.
sent-bytes :
    {E : Type 0} (tick_size : ℕ) (serialize : RepliconTick → Bytes)
    → ((t : RepliconTick) → length (serialize t) ≡ tick_size)
    → (event_data : ServerEvent E) (to_clients : ToClients E) (body : Bytes)
      (message : SerializedMessage)
    → event_data.serialize to_clients.event ≡ some body
    → serialize_with_padding event_data tick_size to_clients.event ≡ ok message
    → (server : RepliconServer) (before c : ReplicatedClient) (bytes : Bytes)
    → server.running ≡ true
    → (let first =
          send tick_size serialize
            (record { mode = to_clients.mode; channel = event_data.channel_id; message = message })
            server
            before in
        (send tick_size serialize first.0 first.1 c).1.sent_messages
        ≡ first.1.sent_messages ++ ((c.id, event_data.channel_id, bytes) ∷ []))
    → bytes ≡ serialize c.update_tick ++ body
unfolding serialize_with_padding event_serialize
sent-bytes tick_size serialize fixed event_data to_clients body message serialized with_padding
      server before c bytes on sends =
    let made : ok (SerializedMessage.raw (replicate tick_size 0 ++ body)) ≡ ok message =
      rw (serialized, event_serialize, serialize_with_padding) at with_padding in
    let is_raw : message ≡ SerializedMessage.raw (replicate tick_size 0 ++ body) = cc in
    let event : BufferedServerEvent = record {
      mode = to_clients.mode;
      channel = event_data.channel_id;
      message = message;
    } in
    let resolved : IsResolved tick_size serialize message =
      subst (IsResolved tick_size serialize) (sym is_raw) (unfold IsResolved in tt) in
    let body_of : payload tick_size serialize message ≡ body =
      ap (payload tick_size serialize) is_raw
      ∙ (unfold payload in
          drop-append tick_size (replicate tick_size 0) body (length-replicate tick_size 0)) in
    let one = send-sent tick_size serialize fixed event server before on resolved in
    let first = send tick_size serialize event server before in
    let two = send-sent tick_size serialize fixed first.0 first.1 c one.1 one.2 in
    let pair = last-eq _ _ _ (sym sends ∙ two.0) in
    ap (λ (x : ℕ × ℕ × Bytes). x.2) pair
    ∙ ap (λ (b : Bytes). serialize c.update_tick ++ b) (one.3 ∙ body_of)

module _ {E Q : Type 0} (m : Multimap Q) (entries : Q → Entries) (laws : IsMultimap m entries)
    (event_data : ServerEvent E) (entity_map : ServerEntityMap)
    (safe : (message : Bytes) → (deserialize event_data entity_map [] message).1 ≢ panicked)
    (read_tick : Reader RepliconTick)
    (reads : (message : Bytes) → read_tick message ≢ panicked) where
  -- One message arrives, of a tick and a body that is read as an event.
  module _ (waits : is_independent event_data ≡ false) (t : RepliconTick) (message body : Bytes)
      (front : read_tick message ≡ value t body) (event : E) (rest : Bytes)
      (decodes : deserialize event_data entity_map [] body ≡ ([], value event rest)) where
    event_of-body : event_of event_data entity_map body ≡ event ∷ []
    unfolding event_of
    event_of-body = rw decodes refl

    arrives-late :
        (u : RepliconTick)
        → tick_gt t u ≡ true
        → (arrived_events event_data entity_map read_tick u (message ∷ []) ≡ [])
          × (arrived_late event_data entity_map read_tick u (message ∷ []) ≡ (t, body) ∷ [])
    unfolding arrived_events arrived_late ready_event late_entry
    arrives-late u late = (rw (waits, front, late) refl, rw (waits, front, late) refl)

    arrives-due :
        (u : RepliconTick)
        → tick_gt t u ≡ false
        → (arrived_events event_data entity_map read_tick u (message ∷ []) ≡ event ∷ [])
          × (arrived_late event_data entity_map read_tick u (message ∷ []) ≡ [])
    unfolding arrived_events arrived_late ready_event late_entry
    arrives-due u due = (rw (waits, front, due, event_of-body) refl, rw (waits, front, due) refl)

    receive_typed-arrives :
        {Float : Type 0} (client emptied : RepliconClient Float) (u : RepliconTick)
        (events : List E) (q : Q)
        → entries q ≡ []
        → client_receive client event_data.channel_id ≡ ok (emptied, message ∷ [])
        → (q' : Q) × (receive_typed m event_data entity_map read_tick (state events q) client u
            ≡ done (state (received t event u events) q', emptied))
          × (entries q' ≡ queued t body u)
    receive_typed-arrives client emptied u events q empty got = elim (Bool-cases (tick_gt t u)) [
      | inl late ↦
          let (applied, put) = arrives-late u late in
          let new : IsNew [] (arrived_late event_data entity_map read_tick u (message ∷ [])) =
            unfold IsNew in rw put (refl, tt) in
          let (q', run, left) =
            receive_typed-empty m entries laws event_data entity_map safe read_tick reads client
              emptied (message ∷ []) u events q empty got new in
          (
            q',
            rw late (
                run
                ∙ ap (λ es. done (state (events ++ es) q', emptied)) applied
                ∙ ap (λ es. done (state es q', emptied)) (append-nil events)),
            rw late (left ∙ put),
          )
      | inr due ↦
          let (applied, put) = arrives-due u due in
          let new : IsNew [] (arrived_late event_data entity_map read_tick u (message ∷ [])) =
            unfold IsNew in rw put tt in
          let (q', run, left) =
            receive_typed-empty m entries laws event_data entity_map safe read_tick reads client
              emptied (message ∷ []) u events q empty got new in
          (
            q',
            rw due (run ∙ ap (λ es. done (state (events ++ es) q', emptied)) applied),
            rw due (left ∙ put),
          )
    ]

    -- What the second one comes to, at an update tick that the message's tick is not after.
    catches_up :
        (u u' : RepliconTick) (events : List E)
        → tick_gt t u' ≡ false
        → All (IsDue u') (queued t body u)
          × (received t event u events ++ events_of event_data entity_map (queued t body u)
              ≡ events ++ (event ∷ []))
    unfolding events_of
    catches_up u u' events due' = elim (Bool-cases (tick_gt t u)) [
      | inl late ↦ (rw late (due', tt), rw (late, event_of-body) refl)
      | inr due ↦ (rw due tt, rw (due, append-nil (events ++ (event ∷ []))) refl)
    ]

  -- An event of the server that waits for replication. It is serialized with padding; the message is
  -- sent to any client that replicates, by which it is resolved for that client's tick, and then
  -- with `bytes` to the client in question, by a server that runs. Where a tick is read back as it is
  -- written, in `tick_size` bytes, the event is read back from its bytes, no read of a tick or an event
  -- panics, and the queue is empty: the client that receives `bytes` applies nothing if its
  -- update tick is before the one that the server had sent it, and otherwise it applies the event. When
  -- it has received at an update tick that the message's tick is not after, the event has been
  -- applied exactly once, and nothing is queued.
  pub receive_typed-sent_to :
      {Float : Type 0} (tick_size : ℕ) (serialize : RepliconTick → Bytes)
      → ((t : RepliconTick) → length (serialize t) ≡ tick_size)
      → ((t : RepliconTick) (rest : Bytes) → read_tick (serialize t ++ rest) ≡ value t rest)
      → (to_clients : ToClients E) (body rest : Bytes) (message : SerializedMessage)
      → event_data.serialize to_clients.event ≡ some body
      → deserialize event_data entity_map [] body ≡ ([], value to_clients.event rest)
      → is_independent event_data ≡ false
      → serialize_with_padding event_data tick_size to_clients.event ≡ ok message
      → (server : RepliconServer) (before c : ReplicatedClient) (bytes : Bytes)
      → server.running ≡ true
      → (let first =
            send tick_size serialize
              (record {
                mode = to_clients.mode;
                channel = event_data.channel_id;
                message = message;
              })
              server
              before in
          (send tick_size serialize first.0 first.1 c).1.sent_messages
          ≡ first.1.sent_messages ++ ((c.id, event_data.channel_id, bytes) ∷ []))
      → (client emptied client' emptied' : RepliconClient Float) (u u' : RepliconTick)
        (events : List E) (q : Q)
      → entries q ≡ []
      → client_receive client event_data.channel_id ≡ ok (emptied, bytes ∷ [])
      → client_receive client' event_data.channel_id ≡ ok (emptied', [])
      → tick_gt c.update_tick u' ≡ false
      → (q' : Q) × (q'' : Q) × (let then_events =
            if tick_gt c.update_tick u then events else events ++ (to_clients.event ∷ []) in
          (receive_typed m event_data entity_map read_tick (state events q) client u
            ≡ done (state then_events q', emptied))
          × (receive_typed m event_data entity_map read_tick (state then_events q') client' u'
              ≡ done (state (events ++ (to_clients.event ∷ [])) q'', emptied')))
        × (entries q'' ≡ [])
  receive_typed-sent_to tick_size serialize fixed read_back to_clients body rest message serialized
        decodes waits with_padding server before c bytes on sends client emptied client' emptied' u
        u' events q empty got got' due =
      let t = c.update_tick in
      let as_sent : bytes ≡ serialize t ++ body =
        sent-bytes tick_size serialize fixed event_data to_clients body message serialized
          with_padding server before c bytes on sends in
      let front = read_back t body in
      let got'' : client_receive client event_data.channel_id
          ≡ ok (emptied, (serialize t ++ body) ∷ []) =
        got ∙ ap (λ (b : Bytes). ok (emptied, b ∷ [])) as_sent in
      let (q', run, left) =
        receive_typed-arrives waits t (serialize t ++ body) body front to_clients.event rest decodes
          client emptied u events q empty got'' in
      let (all_due, all) =
        catches_up waits t (serialize t ++ body) body front to_clients.event rest decodes u u'
          events due in
      let (q'', run', left') =
        receive_typed-drains m entries laws event_data entity_map safe read_tick reads client'
          emptied' u' (received t to_clients.event u events) q' got'
          (subst (λ es. All (IsDue u') es) (sym left) all_due) in
      let applied : received t to_clients.event u events
            ++ events_of event_data entity_map (entries q')
          ≡ events ++ (to_clients.event ∷ []) =
        rw left all in
      (q', q'', (run, run' ∙ ap (λ es. done (state es q'', emptied')) applied), left')
