-- ===== src/Receive/Finish.antt =====
-- client.rs: receiving an update message ends.
use bevy_mod_replication.Common.{ℕ, suc, Bool, List, [], ◌∷◌, length, arith}
use bevy_mod_replication.Tick.{RepliconTick}
use bevy_mod_replication.Backend.Server.{Bytes}
use bevy_mod_replication.Wire.{Wire, IsReader}
use bevy_mod_replication.Wire.Entities.{deserialize_entity}
use bevy_mod_replication.Messages.Flags.{Section}
use bevy_mod_replication.Receive.{
  read_byte, apply_entity_mapping, apply_despawn, apply_removal, apply_removals, apply_change,
  apply_changes, with_entity, finish_entity, apply_section, apply_sections, kind_of, check,
  apply_update_message,
}
use bevy_mod_replication.Receive.Items.{World, Client}
use bevy_mod_replication.Receive.Steps.{Action, ArrayKind, read, apply_array, ◌>>=◌ as bind}
use bevy_mod_replication.Receive.Ending.{
  Within, Leaves, IsEnding, IsTaking, read-IsTaking, read-IsEnding, bind-IsTaking, bind-IsEnding,
  taking-IsEnding, change-IsEnding, run-IsEnding, pure-IsEnding, fns_id-Leaves, tick-Leaves,
  component-Leaves, entity-Leaves, apply_array-IsEnding,
}

read_byte-Leaves : (bytes : Bytes) → Leaves (length bytes) (read_byte bytes)
unfolding read_byte Leaves
read_byte-Leaves [] = tt
read_byte-Leaves (b ∷ bytes) = omega arith

module _ {W Component : Type 0} (w : Wire Component) (laws : IsReader w) (e : World W Component)
    (checks : Bool) where
  pub read_entity-IsTaking : {S : Type 0} → IsTaking (read {S = S} (deserialize_entity w))
  read_entity-IsTaking = read-IsTaking (deserialize_entity w) (entity-Leaves w laws)

  mapping-IsTaking : IsTaking (apply_entity_mapping w e checks)
  unfolding apply_entity_mapping
  mapping-IsTaking =
      bind-IsTaking _ _ read_entity-IsTaking
        (λ a. bind-IsEnding _ _ (taking-IsEnding _ read_entity-IsTaking) (λ b. change-IsEnding _))

  despawn-IsTaking : (tick : RepliconTick) → IsTaking (apply_despawn w e checks tick)
  unfolding apply_despawn
  despawn-IsTaking tick = bind-IsTaking _ _ read_entity-IsTaking (λ a. change-IsEnding _)

  with_entity-IsTaking :
      (tick : RepliconTick) (k : ℕ → Action (Client W) (Unit {0}))
      → ((entity : ℕ) → IsEnding (k entity))
      → IsTaking (with_entity w e checks tick k)
  unfolding with_entity
  with_entity-IsTaking tick k h = bind-IsTaking _ _ read_entity-IsTaking (λ a.
      bind-IsEnding _ _ (run-IsEnding _) (λ b. bind-IsEnding _ _ (change-IsEnding _) (λ _. h b)))

  items-IsEnding :
      (f : Action (Client W) (Unit {0}))
      → IsTaking f
      → IsEnding (bind (apply_array w ArrayKind.sized f) (λ len. finish_entity w e checks len))
  unfolding finish_entity
  items-IsEnding f takes =
      bind-IsEnding _ _ (apply_array-IsEnding w laws ArrayKind.sized f takes)
        (λ n. change-IsEnding _)

  removals-IsTaking : (tick : RepliconTick) → IsTaking (apply_removals w e checks tick)
  unfolding apply_removals apply_removal
  removals-IsTaking tick = with_entity-IsTaking tick _ (λ entity. items-IsEnding _ (
      bind-IsTaking _ _ (read-IsTaking w.read_fns_id (fns_id-Leaves w laws))
        (λ id. change-IsEnding _)))

  changes-IsTaking : (tick : RepliconTick) → IsTaking (apply_changes w e checks tick)
  unfolding apply_changes apply_change
  changes-IsTaking tick = with_entity-IsTaking tick _ (λ entity. items-IsEnding _ (
      bind-IsTaking _ _ (read-IsTaking w.read_fns_id (fns_id-Leaves w laws)) (λ id.
        bind-IsEnding _ _ (change-IsEnding _) (λ _.
          bind-IsEnding _ _ (read-IsEnding (w.read_component id) (component-Leaves w laws id))
            (λ c. change-IsEnding _)))))

  apply_section-IsEnding :
      (tick : RepliconTick) (kind : ArrayKind) (f : Section)
      → IsEnding (apply_section w e checks tick kind f)
  unfolding apply_section
  apply_section-IsEnding tick kind Section.mappings = bind-IsEnding _ _ (change-IsEnding _) (λ _.
      bind-IsEnding _ _ (apply_array-IsEnding w laws kind _ mapping-IsTaking)
        (λ n. change-IsEnding _))
  apply_section-IsEnding tick kind Section.despawns =
      bind-IsEnding _ _ (apply_array-IsEnding w laws kind _ (despawn-IsTaking tick))
        (λ n. change-IsEnding _)
  apply_section-IsEnding tick kind Section.removals =
      bind-IsEnding _ _ (apply_array-IsEnding w laws kind _ (removals-IsTaking tick))
        (λ n. change-IsEnding _)
  apply_section-IsEnding tick kind Section.changes = bind-IsEnding _ _ (change-IsEnding _) (λ _.
      bind-IsEnding _ _ (apply_array-IsEnding w laws kind _ (changes-IsTaking tick))
        (λ n. change-IsEnding _))

  apply_sections-IsEnding :
      (tick : RepliconTick) (l : ℕ) (fs : List Section)
      → IsEnding (apply_sections w e checks tick l fs)
  unfolding apply_sections
  apply_sections-IsEnding tick l [] = pure-IsEnding tt
  apply_sections-IsEnding tick l (f ∷ fs) =
      bind-IsEnding _ _ (apply_section-IsEnding tick (kind_of w e checks l f) f)
        (λ _. apply_sections-IsEnding tick l fs)

  -- Where a read of a number takes a byte at least and no read adds bytes, receiving an update
  -- message ends, whatever bytes it has and in whatever state the client is: with a result, an
  -- error or a panic, and after no more than the message's bytes.
  pub apply_update_message-Within :
      (t : Client W) (message : Bytes)
      → Within (suc (length message)) (apply_update_message w e checks t message)
  unfolding apply_update_message check
  apply_update_message-Within t message =
      bind-IsEnding _ _ (change-IsEnding _)
        (λ _.
          bind-IsEnding _ _ (taking-IsEnding _ (read-IsTaking read_byte read_byte-Leaves)) (λ flags.
            bind-IsEnding _ _ (run-IsEnding _) (λ _.
              bind-IsEnding _ _ (taking-IsEnding _ (read-IsTaking w.read_tick (tick-Leaves w laws)))
                (λ tick. bind-IsEnding _ _ (change-IsEnding _) (λ _.
                  bind-IsEnding _ _ (run-IsEnding _) (λ l. apply_sections-IsEnding tick l _))))))
        t message
