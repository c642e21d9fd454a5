-- ===== src/Messages/Update.antt =====
-- server/replication_messages/update_message.rs: `UpdateMessage`, everything but mutations for one
-- client, and its bytes.
pub mod Content
pub mod Building
pub mod Written
pub mod Sent
use bevy_mod_replication.Common.{
  ℕ, ◌+◌, ◌-◌, Bool, true, false, not, ◌&&◌, Option, none, some, List, [], ◌∷◌, ◌++◌, length, ltb,
  ◌==◌, if◌then◌else◌, Outcome, ok, panic, ◌>>=◌, ◌>>◌, debug_assert,
}
use bevy_mod_replication.Visibility.{Visibility}
use bevy_mod_replication.Backend.Server.{Bytes, RepliconServer, send as server_send}
use bevy_mod_replication.Wire.{Wire}
use bevy_mod_replication.Messages.{Range, len, is_empty as is_empty_range, slice, slices}
use bevy_mod_replication.Messages.Changes.{
  ComponentChanges, components_size, add_range, add_component, extend, sum_len,
}
use bevy_mod_replication.Messages.Flags.{Section, flag_bits, iter_names, last, flags_of}
use bevy_mod_replication.Messages.Mutate.{
  MutateMessage, change_last, last_of, last_mutations, pop_mutations,
}

pub record ComponentRemovals : Type 0 where
  pub entity : Range
  pub ids_len : ℕ
  pub fn_ids : Range

pub record UpdateMessage : Type 0 where
  pub mappings : Range
  pub mappings_len : ℕ
  pub despawns : List Range
  pub despawns_len : ℕ
  pub removals : List ComponentRemovals
  pub changes : List ComponentChanges
  pub entity_visibility : Visibility
  pub entity_written : Bool

-- `Default`.
unfoldable pub default : UpdateMessage
default = record {
  mappings = record { start = 0; end = 0 };
  mappings_len = 0;
  despawns = [];
  despawns_len = 0;
  removals = [];
  changes = [];
  entity_visibility = Visibility.hidden;
  entity_written = false;
}

unfoldable pub set_mappings : UpdateMessage → Range → ℕ → UpdateMessage
set_mappings m mappings mappings_len = record m { mappings = mappings; mappings_len = mappings_len }

unfoldable pub add_despawn : UpdateMessage → Range → UpdateMessage
add_despawn m entity = record m {
  despawns_len = m.despawns_len + 1;
  despawns = add_range m.despawns entity;
}

unfoldable pub add_removals : UpdateMessage → Range → ℕ → Range → UpdateMessage
add_removals m entity ids_len fn_ids = record m {
  removals = m.removals ++ (record { entity = entity; ids_len = ids_len; fn_ids = fn_ids } ∷ []);
}

unfoldable pub start_entity_changes : UpdateMessage → Visibility → UpdateMessage
start_entity_changes m visibility = record m {
  entity_visibility = visibility;
  entity_written = false;
}

unfoldable pub add_changed_entity : UpdateMessage → Range → UpdateMessage
add_changed_entity m entity = record m {
  changes = m.changes ++ (record { entity = entity; components_len = 0; components = [] } ∷ []);
  entity_written = true;
}

unfoldable pub add_inserted_component : UpdateMessage → Range → Outcome UpdateMessage
add_inserted_component m component =
    change_last (λ c. add_component c component) m.changes >>= λ changes.
    ok (record m { changes = changes })

-- The changes of the last entity with the mutations; `debug_assert_eq!` on the entity's range.
unfoldable pub extend_last :
    Bool → ComponentChanges → List ComponentChanges → Outcome (List ComponentChanges)
extend_last checks mutations changes = elim (last_of changes) [
  | none ↦ panic
  | some c ↦
      debug_assert checks
        (mutations.entity.start == c.entity.start && mutations.entity.end == c.entity.end)
      >> change_last (λ d. extend d mutations) changes
]

unfoldable pub take_mutations :
    Bool → UpdateMessage → MutateMessage → Outcome (UpdateMessage × MutateMessage)
unfolding extend_last
take_mutations checks m mutate =
    if not mutate.mutations_written then ok (m, mutate) else elim (last_mutations mutate) [
      | none ↦ panic
      | some mutations ↦
          let fresh : ComponentChanges = record {
            entity = mutations.entity;
            components_len = 0;
            components = [];
          } in
          let started = if m.entity_written then m.changes else m.changes ++ (fresh ∷ []) in
          extend_last checks mutations started >>= λ changes.
          ok (record m { changes = changes }, pop_mutations mutate)
    ]

abbrev pub has : {A : Type 0} → List A → Bool
has [] = false
has (_ ∷ _) = true

unfoldable pub is_empty : UpdateMessage → Bool
is_empty m =
    not (has m.changes) && not (has m.despawns) && not (has m.removals) && is_empty_range m.mappings

unfoldable pub flags : UpdateMessage → ℕ
unfolding flags_of
flags m =
    flags_of (not (is_empty_range m.mappings)) (has m.despawns) (has m.removals) (has m.changes)

unfoldable pub clear : UpdateMessage → UpdateMessage
clear m = record m {
  mappings = record { start = 0; end = 0 };
  mappings_len = 0;
  despawns = [];
  despawns_len = 0;
  removals = [];
  changes = [];
}

unfoldable pub check_last : Bool → Bool → Section → Outcome (Unit {0})
check_last checks is_last Section.changes = debug_assert checks is_last
check_last checks is_last _ = ok tt

-- Only mappings: the source logs an error and does not send.
unfoldable pub is_skipped : Bool → Section → Bool
is_skipped is_last Section.mappings = is_last
is_skipped is_last _ = false

module _ {Component : Type 0} (w : Wire Component) where
  abbrev pub required_space : ℕ → ℕ
  required_space n = length (w.varint n)

  unfoldable pub removals_size : List ComponentRemovals → ℕ
  removals_size [] = 0
  removals_size (r ∷ rs) = len r.entity + required_space r.ids_len + len r.fn_ids + removals_size rs

  unfoldable pub changes_size : List ComponentChanges → ℕ
  changes_size [] = 0
  changes_size (c ∷ cs) =
      len c.entity + required_space c.components_len + components_size c + changes_size cs

  -- The number that stands before a section that is not the last.
  unfoldable pub section_len : UpdateMessage → Section → ℕ
  section_len m Section.mappings = m.mappings_len
  section_len m Section.despawns = m.despawns_len
  section_len m Section.removals = length m.removals
  section_len m Section.changes = 0

  unfoldable pub section_size : UpdateMessage → Section → ℕ
  section_size m Section.mappings = len m.mappings
  section_size m Section.despawns = sum_len m.despawns
  section_size m Section.removals = removals_size m.removals
  section_size m Section.changes = changes_size m.changes

  -- The number is not written for the last section, nor for changes, which are always last.
  unfoldable pub section_count : UpdateMessage → Bool → Section → Bytes
  unfolding section_len
  section_count m is_last Section.changes = []
  section_count m is_last f = if is_last then [] else w.varint (section_len m f)

  unfoldable pub count_size : UpdateMessage → Bool → Section → ℕ
  unfolding section_len
  count_size m is_last Section.changes = 0
  count_size m is_last f = if is_last then 0 else required_space (section_len m f)

  -- The loop that precalculates the size.
  unfoldable pub sections_size : Bool → ℕ → UpdateMessage → List Section → Outcome ℕ
  unfolding section_size count_size check_last
  sections_size checks last_flag m [] = ok 0
  sections_size checks last_flag m (f ∷ fs) =
      let is_last = flag_bits f == last_flag in
      check_last checks is_last f >> sections_size checks last_flag m fs >>= λ rest.
      ok (count_size m is_last f + section_size m f + rest)

  unfoldable pub write_removals : Bytes → List ComponentRemovals → Outcome Bytes
  write_removals serialized [] = ok []
  write_removals serialized (r ∷ rs) = slice serialized r.entity >>= λ entity.
      slice serialized r.fn_ids >>= λ fn_ids. write_removals serialized rs >>= λ rest.
      ok (entity ++ (w.varint r.ids_len ++ (fn_ids ++ rest)))

  unfoldable pub write_changes : Bytes → List ComponentChanges → Outcome Bytes
  write_changes serialized [] = ok []
  write_changes serialized (c ∷ cs) = slice serialized c.entity >>= λ entity.
      slices serialized c.components >>= λ components. write_changes serialized cs >>= λ rest.
      ok (entity ++ (w.varint c.components_len ++ (components ++ rest)))

  unfoldable pub section_bytes : Bytes → UpdateMessage → Section → Outcome Bytes
  section_bytes serialized m Section.mappings = slice serialized m.mappings
  section_bytes serialized m Section.despawns = slices serialized m.despawns
  section_bytes serialized m Section.removals = write_removals serialized m.removals
  section_bytes serialized m Section.changes = write_changes serialized m.changes

  -- `none` where the message has only mappings, and is not sent.
  unfoldable pub write_sections :
      ℕ → Bytes → UpdateMessage → List Section → Bytes → Outcome (Option Bytes)
  unfolding section_bytes section_count is_skipped
  write_sections last_flag serialized m [] message = ok (some message)
  write_sections last_flag serialized m (f ∷ fs) message =
      let is_last = flag_bits f == last_flag in
      let rest = section_bytes serialized m f >>= λ bytes.
      write_sections last_flag serialized m fs (message ++ (section_count m is_last f ++ bytes)) in
      if is_skipped is_last f then ok none else rest

  -- The message's bytes: the flags as one byte, the tick and the sections.
  unfoldable pub write : Bool → UpdateMessage → Bytes → Range → Outcome (Option Bytes)
  unfolding sections_size write_sections
  write checks m serialized server_tick =
      let bits = flags m in
      last checks bits >>= λ last_flag.
      sections_size checks last_flag m (iter_names bits) >>= λ size.
      slice serialized server_tick >>= λ tick.
      write_sections last_flag serialized m (iter_names bits) (bits ∷ tick) >>= λ written.
      elim written [
        | none ↦ ok none
        | some message ↦
            debug_assert checks (length message == 1 + len server_tick + size) >> ok (some message)
      ]

  -- Channel 0 is `ReplicationChannel::Updates`.
  unfoldable pub send :
      Bool → UpdateMessage → RepliconServer → ℕ → Bytes → Range → Outcome RepliconServer
  unfolding write
  send checks m server client_id serialized server_tick =
      write checks m serialized server_tick >>= λ written.
      ok (elim written [ none ↦ server | some message ↦ server_send server client_id 0 message ])
