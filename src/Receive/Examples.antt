-- ===== src/Receive/Examples.antt =====
-- Receiving at concrete inputs, in a world of one entity's history.
use bevy_mod_replication.Common.{
  ℕ, ◌≡◌, refl, true, false, Option, none, some, [], ◌∷◌, length, ok, ◌>>=◌, arith,
}
use bevy_mod_replication.Tick.{tick_gt, sub}
use bevy_mod_replication.Backend.Server.{Bytes}
use bevy_mod_replication.Client.ConfirmHistory.{ConfirmHistory, confirm}
use bevy_mod_replication.EntityMap.{empty as empty_map, get_by_server}
use bevy_mod_replication.Wire.{◌>>=◌ as reader_bind}
use bevy_mod_replication.Wire.Examples.{plain, plain-IsWire, plain-IsReader}
use bevy_mod_replication.Messages.Examples.{
  buffer, message, content, tick_range, message-Represents, tick_range-Holds, message-IsSendable,
}
use bevy_mod_replication.Messages.Update.{write}
use bevy_mod_replication.Receive.{apply_update_message}
use bevy_mod_replication.Receive.Items.{World, Client, no_stats}
use bevy_mod_replication.Receive.Steps.{after, done, read, ◌>>=◌ as bind}
use bevy_mod_replication.Receive.Ending.{Within}
use bevy_mod_replication.Receive.Finish.{apply_update_message-Within}
use bevy_mod_replication.Receive.Updates.{IsContent}
use bevy_mod_replication.Receive.RoundTrip.{
  replay_content, start_update, apply_update_message-write,
}
use bevy_mod_replication.Receive.Mutations.{
  BufferedMutate, Verdict, insert, judge, apply_mutate, apply_mutations, apply_found, skip, add_u64,
  apply_mutate_messages,
}
use bevy_mod_replication.Receive.Mutations.Buffer.{
  leading, IsPartitionPoint, IsDescending, insert-IsDescending,
}
use bevy_mod_replication.Receive.Mutations.Kept.{KeepsLate, apply_mutate_messages-KeepsLate}
use bevy_mod_replication.Receive.Mutations.Judge.{judge-confirm, by_history, counts}
use bevy_mod_replication.Common.Maps.{lookup}
use bevy_mod_replication.Wire.Entities.{deserialize_entity, from_parts}

abbrev small_world : World (Option ConfirmHistory) ℕ
small_world = record {
  exists = λ _ _. true;
  insert_replicated = λ _ h. h;
  spawn_replicated = λ h. (h, 20);
  despawn = λ _ _ h. none;
  history = λ h _. h;
  set_history = λ _ h _. some h;
  insert_history = λ _ h _. some h;
  need_history = λ _ _. true;
  registered = λ _. true;
  remove = λ _ _ _ h. ok h;
  write = λ _ _ _ _ t. ok t;
  consume_or_write = λ _ _ _ _ t. ok t;
  apply_queue = λ h. h;
}

abbrev history : ConfirmHistory
history = record { mask = 1; last_tick = 8 }

abbrev client : Client (Option ConfirmHistory)
client = record {
  world = some history;
  entity_map = empty_map;
  update_tick = 8;
  stats = some no_stats;
  mutate_ticks = none;
  replicated_events = [];
  tick_events = [];
}

content-IsContent : IsContent content
content-IsContent = record {
  mappings = tt;
  despawns = ((omega arith, omega arith), tt);
  removals = tt;
  changes = tt;
  mappings_len = omega arith;
  despawns_len = omega arith;
  removals_len = omega arith;
}

apply_update_message-write_example :
    (bytes : Bytes) × (write plain true message buffer tick_range ≡ ok (some bytes))
    × (apply_update_message plain small_world true client bytes
        ≡ after
            (replay_content plain small_world true 9 content
              (start_update plain small_world true 9 (length bytes) client))
            tt
            [])
apply_update_message-write_example =
    apply_update_message-write plain small_world true 9 plain-IsWire buffer message content
      tick_range client message-Represents tick_range-Holds (omega arith) message-IsSendable
      content-IsContent

apply_update_message-Within_example :
    Within 5 (apply_update_message plain small_world true client (8 ∷ 9 ∷ 10 ∷ 11 ∷ []))
apply_update_message-Within_example =
    apply_update_message-Within plain plain-IsReader small_world true client (8 ∷ 9 ∷ 10 ∷ 11 ∷ [])

abbrev buffered : ℕ → ℕ → BufferedMutate
buffered update_tick message_tick = record {
  update_tick = update_tick;
  message_tick = message_tick;
  messages_count = 1;
  message = 10 ∷ 0 ∷ [];
}

apply_mutate_messages-KeepsLate_example :
    KeepsLate
      (apply_mutate plain small_world true)
      8
      (buffered 9 10 ∷ buffered 8 9 ∷ [])
      client
      (apply_mutate_messages plain small_world true 8 (buffered 9 10 ∷ buffered 8 9 ∷ []) client)
apply_mutate_messages-KeepsLate_example =
    apply_mutate_messages-KeepsLate plain plain-IsReader small_world 8
      (buffered 9 10 ∷ buffered 8 9 ∷ []) client

leading-IsPartitionPoint : IsPartitionPoint leading
leading-IsPartitionPoint p ms h = refl

two-IsDescending : IsDescending 0 (buffered 9 10 ∷ buffered 8 8 ∷ [])
unfolding IsDescending sub
two-IsDescending = (omega arith, omega arith, (omega arith, tt), (omega arith, omega arith, tt, tt))

insert-IsDescending_example :
    IsDescending 0 (insert leading (buffered 9 10 ∷ buffered 8 8 ∷ []) (buffered 9 9))
insert-IsDescending_example =
    insert-IsDescending leading 0 (buffered 9 10 ∷ buffered 8 8 ∷ []) (buffered 9 9)
      leading-IsPartitionPoint (omega arith) (omega arith) (unfold sub in omega arith)
      two-IsDescending

judge-confirm_example : judge plain small_world true 7 20 client ≡ (
    confirm true history 7 >>= λ h. ok (
      record client { world = some h; replicated_events = (20, 7) ∷ [] },
      Verdict.apply (tick_gt 7 8),
    ))
unfolding by_history counts tick_gt sub
judge-confirm_example = judge-confirm plain small_world true 7 20 client

-- An entity that is not known and a size that takes the position back to the start.
abbrev wrapping : Bytes
wrapping = 10 ∷ 18446744073709551614 ∷ []

test_wrapping :
    apply_mutations plain small_world false 7 wrapping client wrapping ≡ done client tt wrapping
unfolding apply_mutations apply_found skip add_u64 read bind deserialize_entity from_parts
    reader_bind get_by_server empty_map lookup
test_wrapping = refl
