-- ===== src/Events/Delivered.antt =====
-- core/event/server_event.rs: what a client's `receive_typed` applies and what it queues.
use bevy_mod_replication.Common.{
  ℕ, zero, suc, ◌<◌, ◌≡◌, ◌≢◌, refl, sym, ap, subst, ◌∙◌, true, false, Option, none, some, List, [],
  ◌∷◌, ◌++◌, length, any, ◌==◌, if◌then◌else◌, ok, arith, append-nil, append_assoc, Bool-cases, inl,
  inr,
}
use bevy_mod_replication.Tick.{RepliconTick, tick_gt}
use bevy_mod_replication.EntityMap.{ServerEntityMap}
use bevy_mod_replication.Backend.Server.{Bytes}
use bevy_mod_replication.Backend.Client.{RepliconClient, receive as client_receive}
use bevy_mod_replication.Wire.{Decoded, value, error, panicked, Reader}
use bevy_mod_replication.Events.Queue.{
  Multimap, IsMultimap, first, done, ServerEvent, Delivery, is_independent, check_entities,
  deserialize, pop_if_le, apply_decoded, apply_event, apply_queued, apply_next, apply_popped,
  queue_or_apply, receive_message, receive_messages, receive_channel, receive_taken, receive_typed,
}

abbrev pub Entries : Type 0
Entries = List (RepliconTick × Bytes)

-- The first entries that are not after the update tick, and those from the first that is.
unfoldable pub ready : RepliconTick → Entries → Entries
ready update_tick [] = []
ready update_tick (entry ∷ rest) =
    if tick_gt entry.0 update_tick then [] else entry ∷ ready update_tick rest

unfoldable pub waiting : RepliconTick → Entries → Entries
waiting update_tick [] = []
waiting update_tick (entry ∷ rest) =
    if tick_gt entry.0 update_tick then entry ∷ rest else waiting update_tick rest

-- The entries can be put in one by one, each with a tick that has none yet.
unfoldable pub IsNew : Entries → Entries → Type 0
IsNew entries [] = Unit
IsNew entries (entry ∷ rest) =
    (any (λ other. other.0 == entry.0) entries ≡ false) × IsNew (entries ++ (entry ∷ [])) rest

IsNew-append : (es xs ys : Entries) → IsNew es (xs ++ ys) → IsNew es xs × IsNew (es ++ xs) ys
unfolding IsNew
IsNew-append es [] ys h = (tt, rw (append-nil es) h)
IsNew-append es (x ∷ xs) ys h =
    let r = IsNew-append (es ++ (x ∷ [])) xs ys h.1 in
    ((h.0, r.0), subst (λ zs. IsNew zs ys) (append_assoc es (x ∷ []) xs) r.1)

-- Between events the context has no entities.
abbrev pub state : {E Q : Type 0} → List E → Q → Delivery E Q
state events queue = record { events = events; queue = queue; invalid_entities = [] }

abbrev applied : {E : Type 0} → Decoded E → List E
applied (value event rest) = event ∷ []
applied error = []
applied panicked = []

module _ {E : Type 0} (event_data : ServerEvent E) (entity_map : ServerEntityMap) where
  -- The event of a message, where it can be read and its entities are mapped.
  unfoldable pub event_of : Bytes → List E
  event_of message = applied (deserialize event_data entity_map [] message).1

  unfoldable pub events_of : Entries → List E
  events_of [] = []
  events_of (entry ∷ rest) = event_of entry.1 ++ events_of rest

  module _ (read_tick : Reader RepliconTick) where
    -- What becomes of a message that arrives: the events it gives at once, and what is queued.
    unfoldable pub ready_event : RepliconTick → Decoded RepliconTick → List E
    ready_event update_tick (value tick rest) =
        if tick_gt tick update_tick then [] else event_of rest
    ready_event update_tick _ = []

    unfoldable pub late_entry : RepliconTick → Decoded RepliconTick → Entries
    late_entry update_tick (value tick rest) =
        if tick_gt tick update_tick then (tick, rest) ∷ [] else []
    late_entry update_tick _ = []

    unfoldable pub arrived_events : RepliconTick → List Bytes → List E
    unfolding ready_event
    arrived_events update_tick [] = []
    arrived_events update_tick (message ∷ rest) =
        (if is_independent event_data
          then event_of message
          else ready_event update_tick (read_tick message))
        ++ arrived_events update_tick rest

    unfoldable pub arrived_late : RepliconTick → List Bytes → Entries
    unfolding late_entry
    arrived_late update_tick [] = []
    arrived_late update_tick (message ∷ rest) =
        (if is_independent event_data then [] else late_entry update_tick (read_tick message))
        ++ arrived_late update_tick rest

module _ {E Q : Type 0} (m : Multimap Q) (entries : Q → Entries) (laws : IsMultimap m entries)
    (event_data : ServerEvent E) (entity_map : ServerEntityMap)
    (safe : (message : Bytes) → (deserialize event_data entity_map [] message).1 ≢ panicked) where
  open laws use {front_first, pop_first, insert_last, values_len_length}

  check_entities-nil :
      (r : List ℕ × Decoded E) → (check_entities r).1 ≢ panicked → (check_entities r).0 ≡ []
  unfolding check_entities
  check_entities-nil ([], decoded) h = refl
  check_entities-nil (entity ∷ rest, value event bytes) h = refl
  check_entities-nil (entity ∷ rest, error) h = refl
  check_entities-nil (entity ∷ rest, panicked) h = absurd (h refl)

  apply_decoded-applied :
      (events : List E) (queue : Q) (invalid : List ℕ) (decoded : Decoded E)
      → decoded ≢ panicked
      → invalid ≡ []
      → apply_decoded m event_data entity_map (state events queue) (invalid, decoded)
        ≡ ok (state (events ++ applied decoded) queue)
  unfolding apply_decoded
  apply_decoded-applied events queue invalid (value event rest) h e = rw e refl
  apply_decoded-applied events queue invalid error h e = rw (e, append-nil events) refl
  apply_decoded-applied events queue invalid panicked h e = absurd (h refl)

  apply_event-event_of :
      (events : List E) (queue : Q) (message : Bytes)
      → apply_event m event_data entity_map (state events queue) message
        ≡ ok (state (events ++ event_of event_data entity_map message) queue)
  unfolding apply_event event_of
  apply_event-event_of events queue message =
      apply_decoded-applied events queue _ _ (safe message)
        (unfold deserialize in check_entities-nil _ (unfold deserialize in safe message))

  -- The entry in front decides what the loop pops.
  pop_if_le-nil : (q : Q) (u : RepliconTick) → entries q ≡ [] → pop_if_le m q u ≡ (q, none)
  unfolding pop_if_le
  pop_if_le-nil q u e =
      let f : m.front q ≡ none = front_first q ∙ ap first e in rw (f, pop_if_le) refl

  pop_if_le-late :
      (q : Q) (u : RepliconTick) (entry : RepliconTick × Bytes) (rest : Entries)
      → entries q ≡ entry ∷ rest
      → tick_gt entry.0 u ≡ true
      → pop_if_le m q u ≡ (q, none)
  unfolding pop_if_le
  pop_if_le-late q u entry rest e late =
      let f : m.front q ≡ some entry = front_first q ∙ ap first e in
      rw (f, pop_if_le) (rw (late, pop_if_le) refl)

  pop_if_le-ready :
      (q : Q) (u : RepliconTick) (entry : RepliconTick × Bytes) (rest : Entries)
      → entries q ≡ entry ∷ rest
      → tick_gt entry.0 u ≡ false
      → pop_if_le m q u ≡ ((m.pop_front q).0, some entry)
  unfolding pop_if_le
  pop_if_le-ready q u entry rest e now =
      let f : m.front q ≡ some entry = front_first q ∙ ap first e in
      let p : (m.pop_front q).1 ≡ some entry = (pop_first q entry rest e).0 in
      rw (f, pop_if_le)
        (rw (now, pop_if_le) (ap (λ (o : Option (RepliconTick × Bytes)). ((m.pop_front q).0, o)) p))

  -- The loop ends, with the first entries that are not after the update tick applied.
  apply_queued-ready :
      (fuel : ℕ) (u : RepliconTick) (xs : Entries) (events : List E) (q : Q)
      → entries q ≡ xs
      → length xs < fuel
      → (q' : Q) × (apply_queued m event_data entity_map fuel u (state events q)
          ≡ done (state (events ++ events_of event_data entity_map (ready u xs)) q'))
        × (entries q' ≡ waiting u xs)
  unfolding apply_queued apply_popped apply_next ready waiting events_of
  apply_queued-ready zero u xs events q e h = absurd (omega (arith, h))
  apply_queued-ready (suc fuel) u [] events q e h =
      (q, rw (pop_if_le-nil q u e, append-nil events) refl, e)
  apply_queued-ready (suc fuel) u (x ∷ xs) events q e h = elim (Bool-cases (tick_gt x.0 u)) [
    | inl late ↦ (q, rw (pop_if_le-late q u x xs e late, late, append-nil events) refl, rw late e)
    | inr now ↦
        let (q', run, left) =
          apply_queued-ready fuel u xs (events ++ event_of event_data entity_map x.1)
            (m.pop_front q).0 (pop_first q x xs e).1 (omega (arith, h)) in
        (
          q',
          rw
              (
                pop_if_le-ready q u x xs e now,
                apply_event-event_of events (m.pop_front q).0 x.1,
                now,
              )
              (run ∙ ap (λ es. done (state es q')) (append_assoc events _ _)),
          rw now left,
        )
  ]

  module _ (read_tick : Reader RepliconTick)
      (reads : (message : Bytes) → read_tick message ≢ panicked) where
    abbrev events_now : RepliconTick → Bytes → List E
    events_now u message =
        if is_independent event_data
        then event_of event_data entity_map message
        else ready_event event_data entity_map read_tick u (read_tick message)

    abbrev late_now : RepliconTick → Bytes → Entries
    late_now u message =
        if is_independent event_data
        then []
        else late_entry event_data entity_map read_tick u (read_tick message)

    queue_or_apply-ready :
        (u : RepliconTick) (events : List E) (q : Q) (tick : Decoded RepliconTick)
        → tick ≢ panicked
        → IsNew (entries q) (late_entry event_data entity_map read_tick u tick)
        → (q' : Q) × (queue_or_apply m event_data entity_map read_tick u (state events q) tick
            ≡ ok (state (events ++ ready_event event_data entity_map read_tick u tick) q'))
          × (entries q' ≡ entries q ++ late_entry event_data entity_map read_tick u tick)
    unfolding queue_or_apply ready_event late_entry IsNew
    queue_or_apply-ready u events q (value tick rest) h new = elim (Bool-cases (tick_gt tick u)) [
      | inl late ↦
          let fresh : any (λ other. other.0 == tick) (entries q) ≡ false =
            (subst (λ b. IsNew (entries q) (if b then (tick, rest) ∷ [] else [])) late new).0 in
          (
            m.insert q tick rest,
            rw (late, append-nil events) refl,
            rw late (insert_last q tick rest fresh),
          )
      | inr now ↦
          (q, rw now (apply_event-event_of events q rest), rw now (sym (append-nil (entries q))))
    ]
    queue_or_apply-ready u events q error h new =
        (q, rw (append-nil events) refl, sym (append-nil (entries q)))
    queue_or_apply-ready u events q panicked h new = absurd (h refl)

    receive_message-now :
        (u : RepliconTick) (events : List E) (q : Q) (message : Bytes)
        → IsNew (entries q) (late_now u message)
        → (q' : Q) × (receive_message m event_data entity_map read_tick u (state events q) message
            ≡ ok (state (events ++ events_now u message) q'))
          × (entries q' ≡ entries q ++ late_now u message)
    unfolding receive_message
    receive_message-now u events q message new = elim (Bool-cases (is_independent event_data)) [
      | inl at_once ↦ (
        q,
        rw at_once (apply_event-event_of events q message),
        rw at_once (sym (append-nil (entries q))),
      )
      | inr waits ↦
          let known : IsNew (entries q)
              (late_entry event_data entity_map read_tick u (read_tick message)) =
            subst
              (λ b. IsNew (entries q) (
                if b then [] else late_entry event_data entity_map read_tick u (read_tick message)))
              waits new in
          let (q', run, left) =
            queue_or_apply-ready u events q (read_tick message) (reads message) known in
          (q', rw waits run, rw waits left)
    ]

    receive_messages-arrived :
        (u : RepliconTick) (messages : List Bytes) (events : List E) (q : Q)
        → IsNew (entries q) (arrived_late event_data entity_map read_tick u messages)
        → (q' : Q) × (receive_messages m event_data entity_map read_tick u (state events q) messages
            ≡ ok (state (events ++ arrived_events event_data entity_map read_tick u messages) q'))
          × (entries q' ≡ entries q ++ arrived_late event_data entity_map read_tick u messages)
    unfolding receive_messages arrived_events arrived_late
    receive_messages-arrived u [] events q new =
        (q, rw (append-nil events) refl, sym (append-nil (entries q)))
    receive_messages-arrived u (message ∷ rest) events q new =
        let late = late_now u message in
        let later = arrived_late event_data entity_map read_tick u rest in
        let (here, there) = IsNew-append (entries q) late later new in
        let (q₁, run, left) = receive_message-now u events q message here in
        let (q₂, run', left') =
          receive_messages-arrived u rest (events ++ events_now u message) q₁
            (subst (λ es. IsNew es later) (sym left) there) in
        (
          q₂,
          rw run (run' ∙ ap (λ es. ok (state es q₂)) (append_assoc events _ _)),
          left' ∙ ap (λ es. es ++ later) left ∙ append_assoc (entries q) late later,
        )

    -- Where the functions that read a tick and an event do not panic, the multimap keeps the order of
    -- insertion, and each message that comes to be queued has a tick that is not queued: receiving ends,
    -- and exactly these events are applied, in this order: those of the queue's first messages, up to the
    -- first one whose tick is after the update tick; then those of the messages that wait on the
    -- channel and are independent or not after the update tick. A message that cannot be read, or that
    -- refers to an entity without a mapping, is skipped and has no effect on the others. The queue keeps its
    -- other messages, followed by those that have come too early, and the channel is empty.
    pub receive_typed-events :
        {Float : Type 0} (client emptied : RepliconClient Float) (messages : List Bytes)
        (u : RepliconTick) (events : List E) (q : Q)
        → client_receive client event_data.channel_id ≡ ok (emptied, messages)
        → IsNew (waiting u (entries q)) (arrived_late event_data entity_map read_tick u messages)
        → (q' : Q) × (receive_typed m event_data entity_map read_tick (state events q) client u
            ≡ done (
              state
                  ((events ++ events_of event_data entity_map (ready u (entries q)))
                    ++ arrived_events event_data entity_map read_tick u messages)
                  q',
              emptied,
            ))
          × (entries q'
              ≡ waiting u (entries q) ++ arrived_late event_data entity_map read_tick u messages)
    unfolding receive_typed receive_channel receive_taken
    receive_typed-events client emptied messages u events q got new =
        let enough : length (entries q) < suc (m.values_len q) =
          omega (arith, values_len_length q) in
        let (q₁, run, left) =
          apply_queued-ready (suc (m.values_len q)) u (entries q) events q refl enough in
        let (q₂, run', left') =
          receive_messages-arrived u messages
            (events ++ events_of event_data entity_map (ready u (entries q))) q₁
            (subst (λ es. IsNew es (arrived_late event_data entity_map read_tick u messages))
              (sym left) new) in
        (
          q₂,
          rw (run, got, run') refl,
          left' ∙ ap (λ es. es ++ arrived_late event_data entity_map read_tick u messages) left,
        )
