-- ===== src/Events/ClientExamples.antt =====
-- core/event/: the theorems on what clients receive and send, at an input. Events are numbers of a byte.
use bevy_mod_replication.Common.{
  ℕ, ◌≡◌, ◌≢◌, refl, ap, true, false, not, Option, none, some, List, [], ◌∷◌, ◌++◌, length, any,
  retain, ◌==◌, if◌then◌else◌, arith,
}
use bevy_mod_replication.Tick.{RepliconTick, tick_gt, partial_cmp}
use bevy_mod_replication.EntityMap.{ServerEntityMap}
use bevy_mod_replication.Visibility.{VisibilityPolicy}
use bevy_mod_replication.Clients.{ReplicatedClient, new}
use bevy_mod_replication.Backend.Server.{Bytes, RepliconServer, send as server_send}
use bevy_mod_replication.Backend.Client.{
  RepliconClient, RepliconClientStatus, receive as client_receive,
}
use bevy_mod_replication.Wire.{value, error, panicked, Reader}
use bevy_mod_replication.Events.{SendMode, SerializedMessage, send, get_bytes}
use bevy_mod_replication.Events.Queue.{
  Multimap, IsMultimap, first, done, ServerEvent, check_entities, deserialize, is_independent,
  receive_typed,
}
use bevy_mod_replication.Events.Sending.{ToClients, serialize_with_padding, serialize}
use bevy_mod_replication.Events.Delivered.{
  Entries, events_of, ready, waiting, IsNew, arrived_events, arrived_late, late_entry, state,
  receive_typed-events,
}
use bevy_mod_replication.Events.Arrival.{receive_typed-drains, receive_typed-blocked}
use bevy_mod_replication.Events.Journey.{receive_typed-sent_to}

-- A multimap as the list of its entries; an insertion takes the entries of its key away.
abbrev pop : Entries → Entries × Option (RepliconTick × Bytes)
pop [] = ([], none)
pop (entry ∷ rest) = (rest, some entry)

abbrev pub list_multimap : Multimap Entries
list_multimap = record {
  front = first;
  pop_front = pop;
  insert = λ q tick message.
      retain (λ (entry : RepliconTick × Bytes). not (entry.0 == tick)) q ++ ((tick, message) ∷ []);
  values_len = λ q. length q;
  clear = λ q. [];
}

retain-other :
    (tick : ℕ) (q : Entries)
    → any (λ entry. entry.0 == tick) q ≡ false
    → retain (λ entry. not (entry.0 == tick)) q ≡ q
retain-other tick [] h = refl
retain-other tick (entry ∷ rest) h = ground (arith, retain-other tick rest)

abbrev pub all_entries : Entries → Entries
all_entries q = q

pub list_multimap-IsMultimap : IsMultimap list_multimap all_entries
list_multimap-IsMultimap = record {
  front_first = λ q. refl;
  pop_first = λ q entry rest e. (ap (λ es. (pop es).1) e, ap (λ es. (pop es).0) e);
  insert_last = λ q tick message h.
      ap (λ (es : Entries). es ++ ((tick, message) ∷ [])) (retain-other tick q h);
  values_len_length = λ q. refl;
  clear_nil = λ q. refl;
}

abbrev pub read_byte : Reader ℕ
read_byte [] = error
read_byte (byte ∷ rest) = value byte rest

read_byte-safe : (message : Bytes) → read_byte message ≢ panicked
read_byte-safe [] h = cc
read_byte-safe (byte ∷ rest) h = cc

abbrev pub no_entities : ServerEntityMap
no_entities = record { server_to_client = []; client_to_server = [] }

abbrev pub plain : ServerEvent ℕ
plain = record {
  independent = false;
  events_id = 0;
  server_events_id = 1;
  queue_id = 2;
  channel_id = 0;
  serialize = λ event. some (event ∷ []);
  deserialize = λ entity_map invalid message. (invalid, read_byte message);
}

plain-safe : (message : Bytes) → (deserialize plain no_entities [] message).1 ≢ panicked
unfolding deserialize check_entities
plain-safe message = read_byte-safe message

-- A client with these messages on its only channel.
abbrev pub holding : List Bytes → RepliconClient ℕ
holding messages = record {
  status = RepliconClientStatus.connected none;
  received_messages = messages ∷ [];
  sent_messages = [];
  rtt = 0;
  packet_loss = 0;
  sent_bps = 0;
  received_bps = 0;
}

-- At update tick 3: the first entry is due, the second not; of the messages one is due, one late and
-- one cannot be read.
abbrev old_queue : Entries
old_queue = (2, 20 ∷ []) ∷ (5, 50 ∷ []) ∷ []

abbrev arrivals : List Bytes
arrivals = (3 ∷ 30 ∷ []) ∷ (7 ∷ 70 ∷ []) ∷ [] ∷ []

receive_typed-events_example :
    (q' : Entries) × (receive_typed list_multimap plain no_entities read_byte
        (state [] old_queue)
        (holding arrivals)
        3
      ≡ done (
        state
            (([] ++ events_of plain no_entities (ready 3 old_queue))
              ++ arrived_events plain no_entities read_byte 3 arrivals)
            q',
        holding [],
      ))
    × (q' ≡ waiting 3 old_queue ++ arrived_late plain no_entities read_byte 3 arrivals)
receive_typed-events_example =
    receive_typed-events list_multimap all_entries list_multimap-IsMultimap plain no_entities
      plain-safe read_byte read_byte-safe (holding arrivals) (holding []) arrivals 3 [] old_queue
      (unfold client_receive in refl)
      (unfold waiting tick_gt partial_cmp arrived_late late_entry is_independent IsNew in
        (refl, tt))

receive_typed-drains_example :
    (q' : Entries) × (receive_typed list_multimap plain no_entities read_byte
        (state [] old_queue)
        (holding [])
        6
      ≡ done (state ([] ++ events_of plain no_entities old_queue) q', holding []))
    × (q' ≡ [])
receive_typed-drains_example =
    receive_typed-drains list_multimap all_entries list_multimap-IsMultimap plain no_entities
      plain-safe read_byte read_byte-safe (holding []) (holding []) 6 [] old_queue
      (unfold client_receive in refl) (unfold tick_gt partial_cmp in (refl, (refl, tt)))

-- The second message is due at update tick 3 and waits for the first.
abbrev out_of_order : Entries
out_of_order = (5, 50 ∷ []) ∷ (2, 20 ∷ []) ∷ []

receive_typed-blocked_example :
    (q' : Entries) × (receive_typed list_multimap plain no_entities read_byte
        (state [] out_of_order)
        (holding [])
        3
      ≡ done (state [] q', holding []))
    × (q' ≡ out_of_order)
receive_typed-blocked_example =
    receive_typed-blocked list_multimap all_entries list_multimap-IsMultimap plain no_entities
      plain-safe read_byte read_byte-safe (holding []) (holding []) 3 [] out_of_order (5, 50 ∷ [])
      ((2, 20 ∷ []) ∷ []) (unfold client_receive in refl) refl (unfold tick_gt partial_cmp in refl)

abbrev one_byte : RepliconTick → Bytes
one_byte tick = tick ∷ []

abbrev recipient : ReplicatedClient
recipient = record (new 1 VisibilityPolicy.all) { update_tick = 5 }

abbrev event : ToClients ℕ
event = record { event = 42; mode = SendMode.broadcast }

-- A client with the same tick, which is sent the event first.
abbrev other : ReplicatedClient
other = record (new 2 VisibilityPolicy.all) { update_tick = 5 }

abbrev sender : RepliconServer
sender = record { running = true; received_messages = []; sent_messages = [] }

-- A message of tick 5, received at 3 and once more at 6.
receive_typed-sent_to_example :
    (q' : Entries) × (q'' : Entries) × (let then_events : List ℕ =
        if tick_gt recipient.update_tick 3 then [] else [] ++ (42 ∷ []) in
      (receive_typed list_multimap plain no_entities read_byte
          (state [] [])
          (holding ((5 ∷ 42 ∷ []) ∷ []))
          3
        ≡ done (state then_events q', holding []))
      × (receive_typed list_multimap plain no_entities read_byte
            (state then_events q')
            (holding [])
            6
          ≡ done (state ([] ++ (42 ∷ [])) q'', holding [])))
    × (q'' ≡ [])
receive_typed-sent_to_example =
    receive_typed-sent_to list_multimap all_entries list_multimap-IsMultimap plain no_entities
      plain-safe read_byte read_byte-safe 1 one_byte (λ t. refl) (λ t rest. refl) event (42 ∷ []) []
      (SerializedMessage.raw (0 ∷ 42 ∷ [])) refl (unfold deserialize check_entities in refl)
      (unfold is_independent in refl) (unfold serialize_with_padding serialize in refl) sender other
      recipient (5 ∷ 42 ∷ []) refl (unfold send get_bytes server_send new in refl)
      (holding ((5 ∷ 42 ∷ []) ∷ [])) (holding []) (holding []) (holding []) 3 6 [] [] refl
      (unfold client_receive in refl) (unfold client_receive in refl)
      (unfold tick_gt partial_cmp new in refl)
