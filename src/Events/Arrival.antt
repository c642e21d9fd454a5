-- ===== src/Events/Arrival.antt =====
-- core/event/server_event.rs: a server's event on its way through the client's queue.
use bevy_mod_replication.Common.{
  ◌≡◌, ◌≢◌, refl, sym, ap, subst, ◌∙◌, true, false, List, [], ◌∷◌, ◌++◌, All, ok, append-nil,
}
use bevy_mod_replication.Tick.{RepliconTick, tick_gt}
use bevy_mod_replication.EntityMap.{ServerEntityMap}
use bevy_mod_replication.Backend.Server.{Bytes}
use bevy_mod_replication.Backend.Client.{RepliconClient, receive as client_receive}
use bevy_mod_replication.Wire.{panicked, Reader}
use bevy_mod_replication.Events.Queue.{
  Multimap, IsMultimap, done, ServerEvent, deserialize, receive_typed,
}
use bevy_mod_replication.Events.Delivered.{
  Entries, ready, waiting, IsNew, events_of, arrived_events, arrived_late, state,
  receive_typed-events,
}

-- The entry's tick is not after the update tick.
abbrev pub IsDue : RepliconTick → RepliconTick × Bytes → Type 0
IsDue update_tick entry = tick_gt entry.0 update_tick ≡ false

ready-all : (u : RepliconTick) (xs : Entries) → All (IsDue u) xs → ready u xs ≡ xs
unfolding ready
ready-all u [] h = refl
ready-all u (x ∷ xs) h = rw (h.0, ready-all u xs h.1) refl

waiting-nil : (u : RepliconTick) (xs : Entries) → All (IsDue u) xs → waiting u xs ≡ []
unfolding waiting
waiting-nil u [] h = refl
waiting-nil u (x ∷ xs) h = rw h.0 (waiting-nil u xs h.1)

module _ {E Q : Type 0} (m : Multimap Q) (entries : Q → Entries) (laws : IsMultimap m entries)
    (event_data : ServerEvent E) (entity_map : ServerEntityMap)
    (safe : (message : Bytes) → (deserialize event_data entity_map [] message).1 ≢ panicked)
    (read_tick : Reader RepliconTick)
    (reads : (message : Bytes) → read_tick message ≢ panicked) where
  -- Where the functions that read a tick and an event do not panic, the multimap keeps the order of
  -- insertion, and nothing waits on the channel: once the update tick has caught up with every message of
  -- the queue, receiving applies them all, in their order, and leaves the queue empty.
  pub receive_typed-drains :
      {Float : Type 0} (client emptied : RepliconClient Float) (u : RepliconTick) (events : List E)
      (q : Q)
      → client_receive client event_data.channel_id ≡ ok (emptied, [])
      → All (IsDue u) (entries q)
      → (q' : Q) × (receive_typed m event_data entity_map read_tick (state events q) client u
          ≡ done (state (events ++ events_of event_data entity_map (entries q)) q', emptied))
        × (entries q' ≡ [])
  receive_typed-drains client emptied u events q got due =
      let (q', run, left) =
        receive_typed-events m entries laws event_data entity_map safe read_tick reads client
          emptied [] u events q got (unfold IsNew arrived_late in tt) in
      let all : (events ++ events_of event_data entity_map (ready u (entries q)))
            ++ arrived_events event_data entity_map read_tick u []
          ≡ events ++ events_of event_data entity_map (entries q) =
        unfold arrived_events in
        rw
          (
            ready-all u (entries q) due,
            append-nil (events ++ events_of event_data entity_map (entries q)),
          )
          refl in
      (
        q',
        run ∙ ap (λ es. done (state es q', emptied)) all,
        left ∙ (unfold arrived_late in rw (waiting-nil u (entries q) due) refl),
      )

  -- Where the functions that read a tick and an event do not panic, the multimap keeps the order of
  -- insertion, and nothing waits on the channel: a message whose tick is after the update tick holds up
  -- every message behind it in the queue, whatever their ticks. Receiving applies nothing
  -- and the queue stays as it is.
  pub receive_typed-blocked :
      {Float : Type 0} (client emptied : RepliconClient Float) (u : RepliconTick) (events : List E)
      (q : Q) (entry : RepliconTick × Bytes) (rest : Entries)
      → client_receive client event_data.channel_id ≡ ok (emptied, [])
      → entries q ≡ entry ∷ rest
      → tick_gt entry.0 u ≡ true
      → (q' : Q) × (receive_typed m event_data entity_map read_tick (state events q) client u
          ≡ done (state events q', emptied))
        × (entries q' ≡ entry ∷ rest)
  receive_typed-blocked client emptied u events q entry rest got full late =
      let (q', run, left) =
        receive_typed-events m entries laws event_data entity_map safe read_tick reads client
          emptied [] u events q got (unfold IsNew arrived_late in tt) in
      let none_ready : ready u (entries q) ≡ [] =
        unfold ready in rw (full, ready) (rw (late, ready) refl) in
      let all_waiting : waiting u (entries q) ≡ entry ∷ rest =
        unfold waiting in rw (full, waiting) (rw (late, waiting) refl) in
      let nothing : (events ++ events_of event_data entity_map (ready u (entries q)))
            ++ arrived_events event_data entity_map read_tick u []
          ≡ events =
        unfold arrived_events events_of in
        rw (none_ready, append-nil events, append-nil events) refl in
      let stays : waiting u (entries q) ++ arrived_late event_data entity_map read_tick u []
          ≡ entry ∷ rest =
        unfold arrived_late in rw (all_waiting, append-nil rest) refl in
      (q', run ∙ ap (λ es. done (state es q', emptied)) nothing, left ∙ stays)

  pub receive_typed-empty :
      {Float : Type 0} (client emptied : RepliconClient Float) (messages : List Bytes)
      (u : RepliconTick) (events : List E) (q : Q)
      → entries q ≡ []
      → client_receive client event_data.channel_id ≡ ok (emptied, messages)
      → IsNew [] (arrived_late event_data entity_map read_tick u messages)
      → (q' : Q) × (receive_typed m event_data entity_map read_tick (state events q) client u
          ≡ done (
            state (events ++ arrived_events event_data entity_map read_tick u messages) q',
            emptied,
          ))
        × (entries q' ≡ arrived_late event_data entity_map read_tick u messages)
  receive_typed-empty client emptied messages u events q empty got new =
      let late = arrived_late event_data entity_map read_tick u messages in
      let nothing : waiting u (entries q) ≡ [] = unfold waiting in rw (empty, waiting) refl in
      let none_ready : events_of event_data entity_map (ready u (entries q)) ≡ [] =
        unfold events_of ready in rw (empty, ready) refl in
      let (q', run, left) =
        receive_typed-events m entries laws event_data entity_map safe read_tick reads client
          emptied messages u events q got (subst (λ es. IsNew es late) (sym nothing) new) in
      let same : events ++ events_of event_data entity_map (ready u (entries q)) ≡ events =
        rw (none_ready, append-nil events) refl in
      (
        q',
        run
            ∙ ap
                (λ es. done (
                  state (es ++ arrived_events event_data entity_map read_tick u messages) q',
                  emptied,
                ))
                same,
        left ∙ rw nothing refl,
      )
