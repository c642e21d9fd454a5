-- ===== src/Events/LinkExamples.antt =====
-- core/event/: the theorems on sending, mapping and resetting, at an input. Events are numbers of a byte.
use bevy_mod_replication.Common.{ℕ, ◌≡◌, refl, true, List, [], ◌∷◌, ◌++◌, map, ok, if◌then◌else◌}
use bevy_mod_replication.Common.Maps.{lookup}
use bevy_mod_replication.EntityMap.{ServerEntityMap}
use bevy_mod_replication.Backend.Server.{RepliconServer, receive as server_receive}
use bevy_mod_replication.Backend.Client.{is_connected, is_connected_status}
use bevy_mod_replication.Wire.{value, error}
use bevy_mod_replication.Events.Queue.{ServerEvent, deserialize, default_deserialize_mapped}
use bevy_mod_replication.Events.Mapping.{
  Mapper, through, client_of, is_mapped, deserialize-is_mapped,
}
use bevy_mod_replication.Events.FromClients.{ClientEvent, send_typed, receive_typed}
use bevy_mod_replication.Events.Uplink.{from_client, messages_of, send_typed-receive_typed}
use bevy_mod_replication.Events.Delivered.{Entries}
use bevy_mod_replication.Events.Registry.{EventRegistry, Resources, reset}
use bevy_mod_replication.Events.Reset.{Cleared, reset-Cleared}
use bevy_mod_replication.Events.ClientExamples.{
  list_multimap, list_multimap-IsMultimap, all_entries, read_byte, plain, no_entities, holding,
}

-- An event is an entity, and the server's entity 7 is 70 on the client.
abbrev map_one : Mapper → List ℕ → ℕ → List ℕ × ℕ
map_one mapper invalid entity = mapper invalid entity

abbrev first_or : ℕ → List ℕ → ℕ
first_or event [] = event
first_or event (entity ∷ rest) = entity

abbrev one_entity : ServerEntityMap
one_entity = record { server_to_client = (7, 70) ∷ []; client_to_server = (70, 7) ∷ [] }

abbrev mapped_event : ServerEvent ℕ
mapped_event = record plain { deserialize = default_deserialize_mapped map_one read_byte 0 }

deserialize-is_mapped_example : deserialize mapped_event one_entity [] (8 ∷ []) ≡ (
    if is_mapped one_entity (8 ∷ [])
    then ([], value (first_or 8 (map (client_of 0 one_entity) (8 ∷ []))) [])
    else ([], error))
deserialize-is_mapped_example =
    deserialize-is_mapped 0 one_entity mapped_event map_one read_byte (λ event. event ∷ [])
      (λ entities event. first_or event entities) (λ mapper invalid event. unfold through in refl)
      refl (8 ∷ []) [] 8 refl

abbrev chat : ClientEvent ℕ
chat = record {
  events_id = 4;
  reader_id = 5;
  client_events_id = 6;
  channel_id = 0;
  serialize = λ entity_map event. ok (event ∷ []);
  deserialize = read_byte;
}

-- The cursor is the number of the events that are read; here there are none.
abbrev read_all : ℕ → List ℕ → List ℕ × ℕ
read_all cursor events = (events, cursor)

abbrev receiving : RepliconServer
receiving = record {
  running = true;
  received_messages = ((3, 8 ∷ []) ∷ (3, 9 ∷ []) ∷ []) ∷ [];
  sent_messages = [];
}

send_typed-receive_typed_example :
    (send_typed read_all chat no_entities (8 ∷ 9 ∷ []) 0 (holding [])
      ≡ ok (
        record (holding []) {
          sent_messages = (holding []).sent_messages ++ messages_of chat (λ e. e ∷ []) (8 ∷ 9 ∷ []);
        },
        0,
      ))
    × (receive_typed chat [] receiving
        ≡ ok (
          [] ++ map (λ event. from_client 3 event) (8 ∷ 9 ∷ []),
          record receiving { received_messages = [] ∷ [] },
        ))
send_typed-receive_typed_example =
    send_typed-receive_typed chat no_entities (λ e. e ∷ []) (λ e. refl) (λ e. e) (λ e. [])
      (λ e. refl) read_all (8 ∷ 9 ∷ []) 0 (holding []) 3 [] receiving
      (record receiving { received_messages = [] ∷ [] })
      (unfold is_connected is_connected_status in refl) (unfold server_receive in refl)

abbrev registered : EventRegistry ℕ
registered = record { server = plain ∷ []; client = chat ∷ [] }

abbrev resources : Resources ℕ Entries ℕ
resources = record {
  events = (0, 1 ∷ []) ∷ (4, 2 ∷ 3 ∷ []) ∷ [];
  to_clients = (1, []) ∷ [];
  from_clients = (6, []) ∷ [];
  queues = (2, (5, 50 ∷ []) ∷ []) ∷ [];
  readers = (5, 0) ∷ [];
}

reset-Cleared_example :
    (after : Resources ℕ Entries ℕ) × (reset list_multimap registered resources ≡ ok after)
    × Cleared (λ q. q ≡ []) (2 ∷ []) resources.queues after.queues
    × Cleared (λ es. es ≡ []) (4 ∷ []) resources.events after.events
reset-Cleared_example =
    reset-Cleared list_multimap all_entries list_multimap-IsMultimap registered resources
      (unfold lookup in (λ gone. cc, tt)) (unfold lookup in (λ gone. cc, tt))
