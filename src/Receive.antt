-- ===== src/Receive.antt =====
-- client.rs: how the client receives an update message: `apply_update_message` and its handlers.
pub mod Items
pub mod Steps
pub mod Arrays
pub mod Updates
pub mod RoundTrip
pub mod Mutations
pub mod Replication
pub mod Ending
mod Examples
pub mod Finish
use bevy_mod_replication.Common.{
  ℕ, ◌+◌, Bool, true, false, not, Option, none, some, List, [], ◌∷◌, length, ◌==◌, if◌then◌else◌,
  Outcome, ok, panic, debug_assert,
}
use bevy_mod_replication.Tick.{RepliconTick}
use bevy_mod_replication.Backend.Server.{Bytes}
use bevy_mod_replication.Wire.{Decoded, value, error, Reader, Wire}
use bevy_mod_replication.Wire.Entities.{deserialize_entity}
use bevy_mod_replication.Messages.Flags.{Section, flag_bits, iter_names, last}
use bevy_mod_replication.Receive.Items.{
  World, Client, count_message, count_mappings, count_despawns, count_entities, count_components,
  map_entity, despawn_entity, client_entity, confirm_tick, remove_component, get_fns,
  write_component, apply_queue,
}
use bevy_mod_replication.Receive.Steps.{
  Action, ArrayKind, Step, ◌>>=◌, read, run, change, apply_array,
}

-- One byte, `read_fixedint::<u8>`.
unfoldable pub read_byte : Reader ℕ
read_byte [] = error
read_byte (b ∷ bytes) = value b bytes

module _ {W Component : Type 0} (w : Wire Component) (e : World W Component) (checks : Bool) where
  unfoldable pub apply_entity_mapping : Action (Client W) (Unit {0})
  apply_entity_mapping = read (deserialize_entity w) >>= λ server_entity.
      read (deserialize_entity w) >>= λ mapped. change (map_entity e server_entity mapped)

  unfoldable pub apply_despawn : RepliconTick → Action (Client W) (Unit {0})
  apply_despawn tick = read (deserialize_entity w) >>= λ server_entity.
      change (λ t. ok (despawn_entity e tick server_entity t))

  -- The start that removals and changes share: the client's entity, spawned where it is new, with
  -- the tick confirmed.
  unfoldable pub with_entity :
      RepliconTick → (ℕ → Action (Client W) (Unit {0})) → Action (Client W) (Unit {0})
  with_entity tick k = read (deserialize_entity w) >>= λ server_entity.
      run (client_entity e server_entity) >>= λ entity.
      change (confirm_tick e checks entity tick) >>= λ _. k entity

  -- The end that they share.
  unfoldable pub finish_entity : ℕ → Action (Client W) (Unit {0})
  finish_entity len = change (λ t. ok (apply_queue e (count_components len t)))

  unfoldable pub apply_removal : RepliconTick → ℕ → Action (Client W) (Unit {0})
  apply_removal tick entity =
      read w.read_fns_id >>= λ fns_id. change (remove_component e entity tick fns_id)

  unfoldable pub apply_removals : RepliconTick → Action (Client W) (Unit {0})
  unfolding apply_removal
  apply_removals tick = with_entity tick (λ entity.
      apply_array w ArrayKind.sized (apply_removal tick entity) >>= λ len. finish_entity len)

  unfoldable pub apply_change : RepliconTick → ℕ → Action (Client W) (Unit {0})
  apply_change tick entity = read w.read_fns_id >>= λ fns_id. change (get_fns e fns_id) >>= λ _.
      read (w.read_component fns_id) >>= λ c. change (write_component e entity tick fns_id c)

  unfoldable pub apply_changes : RepliconTick → Action (Client W) (Unit {0})
  unfolding apply_change
  apply_changes tick = with_entity tick (λ entity.
      apply_array w ArrayKind.sized (apply_change tick entity) >>= λ len. finish_entity len)

  -- A `debug_assert!` on the array's kind, an array, and its statistics.
  unfoldable pub apply_section : RepliconTick → ArrayKind → Section → Action (Client W) (Unit {0})
  apply_section tick kind Section.mappings =
      change (λ t. elim kind [
        | ArrayKind.sized ↦ ok t
        | ArrayKind.dynamic ↦ if checks then panic else ok t
      ])
      >>= λ _.
          apply_array w kind apply_entity_mapping >>= λ len. change (λ t. ok (count_mappings len t))
  apply_section tick kind Section.despawns =
      apply_array w kind (apply_despawn tick) >>= λ len. change (λ t. ok (count_despawns len t))
  apply_section tick kind Section.removals =
      apply_array w kind (apply_removals tick) >>= λ len. change (λ t. ok (count_entities len t))
  apply_section tick kind Section.changes =
      change (λ t. elim kind [
        | ArrayKind.dynamic ↦ ok t
        | ArrayKind.sized ↦ if checks then panic else ok t
      ])
      >>= λ _.
          apply_array w kind (apply_changes tick) >>= λ len. change (λ t. ok (count_entities len t))

  abbrev pub kind_of : ℕ → Section → ArrayKind
  kind_of last_flag f = if flag_bits f == last_flag then ArrayKind.dynamic else ArrayKind.sized

  unfoldable pub apply_sections : RepliconTick → ℕ → List Section → Action (Client W) (Unit {0})
  unfolding apply_section
  apply_sections tick last_flag [] = Steps.pure tt
  apply_sections tick last_flag (f ∷ fs) =
      apply_section tick (kind_of last_flag f) f >>= λ _. apply_sections tick last_flag fs

  -- A panic of the flags' operations.
  unfoldable pub check : {A : Type 0} → Outcome A → Action (Client W) A
  check o = run (λ t. elim o [ ok a ↦ ok (t, a) | panic ↦ panic ])

  unfoldable pub apply_update_message : Client W → Bytes → Step (Client W) (Unit {0})
  unfolding apply_sections check read_byte
  apply_update_message t message =
      (change (λ s. ok (count_message (length message) s)) >>= λ _. read read_byte >>= λ flags.
      check (debug_assert checks (not (flags == 0))) >>= λ _. read w.read_tick >>= λ tick.
      change (λ s. ok (record s { update_tick = tick })) >>= λ _.
      check (last checks flags) >>= λ last_flag. apply_sections tick last_flag (iter_names flags))
        t message
