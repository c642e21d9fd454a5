-- ===== src/Messages/Examples.antt =====
-- The update message at concrete inputs.
use bevy_mod_replication.Common.{◌+◌, ℕ, refl, true, List, [], ◌∷◌, ◌++◌}
use bevy_mod_replication.Clients.{ClientBuffers, new as client_new}
use bevy_mod_replication.Messages.Mutate.{MutateMessage, pack}
use bevy_mod_replication.Messages.Mutate.Packing.{Covers, pack-Covers}
use bevy_mod_replication.Visibility.{VisibilityPolicy, Visibility}
use bevy_mod_replication.Backend.Server.{Bytes}
use bevy_mod_replication.Wire.Entities.{serialize_entity}
use bevy_mod_replication.Wire.Examples.{plain}
use bevy_mod_replication.Messages.{Range, append}
use bevy_mod_replication.Messages.Slices.{Holds, append-Holds, grow-Holds}
use bevy_mod_replication.Messages.Changes.{add_range}
use bevy_mod_replication.Messages.Update.{UpdateMessage, default, add_despawn}
use bevy_mod_replication.Messages.Update.Content.{
  Content, empty, Represents, default-Represents, add_despawn-Represents,
}
use bevy_mod_replication.Messages.Update.Sent.{IsSendable}
use bevy_mod_replication.Messages.Update.Building.{Call, run, spec_run, Agree, run-Agree}

-- Generation 1, index 5.
abbrev pub entity : ℕ
entity = 4294967301

abbrev calls : List (Call ℕ)
calls =
    Call.mappings ((entity, 4294967302) ∷ [])
    ∷ Call.foreign (1 ∷ 2 ∷ [])
    ∷ Call.despawn entity
    ∷ Call.start Visibility.gained
    ∷ Call.entity 4294967303
    ∷ Call.component (4, 40)
    ∷ Call.component (5, 50)
    ∷ Call.removals 4294967304 (6 ∷ [])
    ∷ []

run-Agree_example : Agree plain (run plain ([], default) calls) (spec_run plain empty calls)
run-Agree_example = run-Agree plain calls [] default empty (default-Represents plain [])

-- A buffer with a tick and an entity, and a message that despawns the entity.
abbrev before : Bytes
before = 9 ∷ []

abbrev pub buffer : Bytes
buffer = before ++ serialize_entity plain entity

abbrev pub tick_range : Range
tick_range = (append [] (9 ∷ [])).1

abbrev pub message : UpdateMessage
message = add_despawn default (append before (serialize_entity plain entity)).1

abbrev pub content : Content ℕ
content = record empty { despawns = entity ∷ [] }

pub message-Represents : Represents plain buffer message content
message-Represents =
    add_despawn-Represents plain buffer default empty
      (append before (serialize_entity plain entity)).1 entity (default-Represents plain buffer)
      (append-Holds before (serialize_entity plain entity))

pub tick_range-Holds : Holds buffer tick_range (9 ∷ [])
tick_range-Holds =
    grow-Holds before (serialize_entity plain entity) tick_range (9 ∷ []) (append-Holds [] (9 ∷ []))

pub message-IsSendable : IsSendable message
unfolding add_despawn add_range default
message-IsSendable = refl

abbrev mutations : MutateMessage
mutations = record {
  entities = entity ∷ (entity + 1) ∷ [];
  mutations =
      record {
        entity = record { start = 0; end = 1 };
        components_len = 1;
        components = record { start = 1; end = 1100 } ∷ [];
      }
      ∷ record {
        entity = record { start = 1100; end = 1101 };
        components_len = 1;
        components = record { start = 1101; end = 2200 } ∷ [];
      }
      ∷ [];
  mutations_written = true;
}

abbrev no_buffers : ClientBuffers
no_buffers = record { clients = []; entities = [] }

pack-Covers_example :
    Covers 0
      (pack plain mutations (client_new 3 VisibilityPolicy.all) no_buffers true 4 50 60).messages
      2
pack-Covers_example =
    pack-Covers plain mutations (client_new 3 VisibilityPolicy.all) no_buffers true 4 50 60 refl
