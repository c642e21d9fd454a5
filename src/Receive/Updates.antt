-- ===== src/Receive/Updates.antt =====
-- client.rs: what an update message does to the client, as a replay of the content that it stands
-- for, and that reading each section does the same.
use mathlib.Core.Bool.{false≢true}
use bevy_mod_replication.Common.{
  ℕ, ◌<◌, ◌≡◌, sym, Bool, false, List, [], ◌++◌, length, All, Outcome, ok, ◌>>=◌, arith,
  append_assoc, length-append,
}
use bevy_mod_replication.Tick.{RepliconTick}
use bevy_mod_replication.Backend.Server.{Bytes}
use bevy_mod_replication.Wire.{Wire, IsWire, u64_mod}
use bevy_mod_replication.Wire.Entities.{
  IsEntity, serialize_entity, deserialize_entity, deserialize_entity-serialize_entity,
  serialize_entity_some,
}
use bevy_mod_replication.Messages.{mapping_bytes, component_bytes, concat}
use bevy_mod_replication.Messages.Flags.{Section, is_mappings, is_changes}
use bevy_mod_replication.Messages.Update.Content.{Content}
use bevy_mod_replication.Messages.Update.Written.{
  removal_bytes, change_bytes, content_bytes, content_len, append_three,
}
use bevy_mod_replication.Receive.{
  apply_entity_mapping, apply_despawn, apply_removal, apply_removals, apply_change, apply_changes,
  with_entity, finish_entity, apply_section,
}
use bevy_mod_replication.Receive.Items.{
  World, Client, count_mappings, count_despawns, count_entities, count_components, map_entity,
  despawn_entity, client_entity, confirm_tick, remove_component, get_fns, write_component,
  apply_queue,
}
use bevy_mod_replication.Receive.Steps.{Action, ArrayKind, after, apply_array, ◌>>=◌ as bind}
use bevy_mod_replication.Receive.Arrays.{
  replay, Reads, read-value, change-after, bind-after, bind-change, bind-run, apply_array-Reads,
  apply_sized-Reads,
}

-- Contents that the encodings can carry: entities of Bevy, and ids and numbers of 64 bits.
pub record IsContent {Component : Type 0} (c : Content Component) : Type 0 where
  pub mappings : All (λ m. IsEntity m.0 × IsEntity m.1) c.mappings
  pub despawns : All IsEntity c.despawns
  pub removals :
      All (λ r. IsEntity r.0 × (length r.1 < u64_mod) × All (λ id. id < u64_mod) r.1) c.removals
  pub changes :
      All (λ r. IsEntity r.0 × (length r.1 < u64_mod) × All (λ x. x.0 < u64_mod) r.1) c.changes
  pub mappings_len : length c.mappings < u64_mod
  pub despawns_len : length c.despawns < u64_mod
  pub removals_len : length c.removals < u64_mod

module _ {W Component : Type 0} (w : Wire Component) (e : World W Component) (checks : Bool)
    (tick : RepliconTick) where
  -- The client's entity with the tick confirmed, the components, then the count and the queue.
  abbrev pub replay_entity :
      {X : Type 0}
      → (ℕ → X → Client W → Outcome (Client W))
      → ℕ × List X
      → Client W
      → Outcome (Client W)
  replay_entity each x t = client_entity e x.0 t >>= λ r.
      (confirm_tick e checks r.1 tick r.0 >>= λ t'.
      (replay (each r.1) x.1 t' >>= λ t''. ok (apply_queue e (count_components (length x.1) t''))))

  abbrev pub replay_component : ℕ → ℕ × Component → Client W → Outcome (Client W)
  replay_component entity c t = get_fns e c.0 t >>= λ t'. write_component e entity tick c.0 c.1 t'

  abbrev pub replay_removal : ℕ × List ℕ → Client W → Outcome (Client W)
  replay_removal = replay_entity (λ entity. remove_component e entity tick)

  abbrev pub replay_change : ℕ × List (ℕ × Component) → Client W → Outcome (Client W)
  replay_change = replay_entity replay_component

  -- The items of one section one after the other, and their count.
  unfoldable pub replay_section : Content Component → Section → Client W → Outcome (Client W)
  replay_section c Section.mappings t = replay (λ m. map_entity e m.0 m.1) c.mappings t >>= λ t'.
      ok (count_mappings (length c.mappings) t')
  replay_section c Section.despawns t =
      replay (λ x t. ok (despawn_entity e tick x t)) c.despawns t >>= λ t'.
      ok (count_despawns (length c.despawns) t')
  replay_section c Section.removals t =
      replay replay_removal c.removals t >>= λ t'. ok (count_entities (length c.removals) t')
  replay_section c Section.changes t =
      replay replay_change c.changes t >>= λ t'. ok (count_entities (length c.changes) t')

  module _ (laws : IsWire w) where
    item_some : (entity : ℕ) (rest : Bytes) → 0 < length (serialize_entity w entity ++ rest)
    item_some entity rest =
        omega (
          arith,
          serialize_entity_some w laws entity,
          length-append (serialize_entity w entity) rest,
        )

    mapping-Reads :
        Reads
          (apply_entity_mapping w e checks)
          (mapping_bytes w)
          (λ m. map_entity e m.0 m.1)
          (λ m. IsEntity m.0 × IsEntity m.1)
    unfolding apply_entity_mapping
    mapping-Reads m t rest good =
        rw (append_assoc (serialize_entity w m.0) (serialize_entity w m.1) rest) (
          read-value (deserialize_entity w) _ t
            (deserialize_entity-serialize_entity w laws m.0 (serialize_entity w m.1 ++ rest) good.0)
            (read-value (deserialize_entity w) _ t
              (deserialize_entity-serialize_entity w laws m.1 rest good.1)
              (change-after (map_entity e m.0 m.1) t rest)))

    despawn-Reads :
        Reads
          (apply_despawn w e checks tick)
          (serialize_entity w)
          (λ x t. ok (despawn_entity e tick x t))
          IsEntity
    unfolding apply_despawn
    despawn-Reads x t rest good =
        read-value (deserialize_entity w) _ t
          (deserialize_entity-serialize_entity w laws x rest good)
          (change-after (λ t. ok (despawn_entity e tick x t)) t rest)

    removal-Reads :
        (entity : ℕ)
        → Reads
            (apply_removal w e checks tick entity)
            w.fns_id
            (remove_component e entity tick)
            (λ id. id < u64_mod)
    unfolding apply_removal
    removal-Reads entity id t rest good =
        read-value w.read_fns_id _ t (laws.fns_id_read id rest good)
          (change-after (remove_component e entity tick id) t rest)

    change-Reads :
        (entity : ℕ)
        → Reads
            (apply_change w e checks tick entity)
            (component_bytes w)
            (replay_component entity)
            (λ x. x.0 < u64_mod)
    unfolding apply_change
    change-Reads entity x t rest good =
        rw (append_assoc (w.fns_id x.0) (w.component x.0 x.1) rest) (
          read-value w.read_fns_id _ t (laws.fns_id_read x.0 (w.component x.0 x.1 ++ rest) good) (
            bind-change (get_fns e x.0) _ t _ (λ t'. write_component e entity tick x.0 x.1 t') tt
              rest
              (λ t'.
                read-value (w.read_component x.0) _ t' (laws.component_read x.0 x.1 rest)
                  (change-after (write_component e entity tick x.0 x.1) t' rest))))

    with_entity-Reads :
        {X : Type 0} (f : ℕ → Action (Client W) (Unit {0})) (enc : X → Bytes)
        (each : ℕ → X → Client W → Outcome (Client W)) (P : X → Type 0)
        → ((entity : ℕ) → Reads (f entity) enc (each entity) P)
        → Reads
            (with_entity w e checks tick (λ entity.
              bind
                (apply_array w ArrayKind.sized (f entity))
                (λ len. finish_entity w e checks len)))
            (λ x. serialize_entity w x.0 ++ (w.varint (length x.1) ++ concat w enc x.1))
            (replay_entity each)
            (λ x. IsEntity x.0 × (length x.1 < u64_mod) × All P x.1)
    unfolding with_entity finish_entity
    with_entity-Reads f enc each P reads x t rest good =
        rw (append_three (serialize_entity w x.0) (w.varint (length x.1)) (concat w enc x.1) rest) (
          read-value (deserialize_entity w) _ t
            (deserialize_entity-serialize_entity w laws x.0 _ good.0)
            (bind-run (client_entity e x.0) _ t _ _ tt rest (λ t1 entity.
              bind-change (confirm_tick e checks entity tick) _ t1 _ _ tt rest (λ t2.
                bind-after (apply_array w ArrayKind.sized (f entity)) _ t2
                  (replay (each entity) x.1 t2) _ tt rest
                  (apply_sized-Reads w (f entity) enc (each entity) P laws (reads entity) x.1 t2
                    rest good.1 good.2)
                  (λ t3. change-after _ t3 rest)))))

    removals-Reads :
        Reads
          (apply_removals w e checks tick)
          (removal_bytes w)
          replay_removal
          (λ r. IsEntity r.0 × (length r.1 < u64_mod) × All (λ id. id < u64_mod) r.1)
    unfolding apply_removals
    removals-Reads =
        with_entity-Reads (apply_removal w e checks tick) w.fns_id
          (λ entity. remove_component e entity tick) (λ id. id < u64_mod) removal-Reads

    changes-Reads :
        Reads
          (apply_changes w e checks tick)
          (change_bytes w)
          replay_change
          (λ r. IsEntity r.0 × (length r.1 < u64_mod) × All (λ x. x.0 < u64_mod) r.1)
    unfolding apply_changes
    changes-Reads =
        with_entity-Reads (apply_change w e checks tick) (component_bytes w) replay_component
          (λ x. x.0 < u64_mod) change-Reads

    -- A section that is not the last, with its number of items.
    pub apply_section_sized :
        (c : Content Component) (f : Section) (t : Client W) (rest : Bytes)
        → IsContent c
        → is_changes f ≡ false
        → apply_section w e checks tick ArrayKind.sized f t
            (w.varint (content_len w c f) ++ (content_bytes w c f ++ rest))
          ≡ after (replay_section c f t) tt rest
    unfolding apply_section content_len content_bytes replay_section
    apply_section_sized c Section.mappings t rest good k = bind-change _ _ t _ _ tt rest (λ t1.
        bind-after _ _ t1 _ _ tt rest
          (apply_sized-Reads w _ _ _ _ laws mapping-Reads c.mappings t1 rest good.mappings_len
            good.mappings)
          (λ t2. change-after _ t2 rest))
    apply_section_sized c Section.despawns t rest good k =
        bind-after _ _ t _ _ tt rest
          (apply_sized-Reads w _ _ _ _ laws despawn-Reads c.despawns t rest good.despawns_len
            good.despawns)
          (λ t2. change-after _ t2 rest)
    apply_section_sized c Section.removals t rest good k =
        bind-after _ _ t _ _ tt rest
          (apply_sized-Reads w _ _ _ _ laws removals-Reads c.removals t rest good.removals_len
            good.removals)
          (λ t2. change-after _ t2 rest)
    apply_section_sized c Section.changes t rest good k = elim (false≢true (sym k)) [ ]

    -- The last section.
    pub apply_section_dynamic :
        (c : Content Component) (f : Section) (t : Client W)
        → IsContent c
        → is_mappings f ≡ false
        → apply_section w e checks tick ArrayKind.dynamic f t (content_bytes w c f)
          ≡ after (replay_section c f t) tt []
    unfolding apply_section content_bytes replay_section
    apply_section_dynamic c Section.mappings t good k = elim (false≢true (sym k)) [ ]
    apply_section_dynamic c Section.despawns t good k =
        bind-after _ _ t _ _ tt []
          (apply_array-Reads w _ _ _ _ laws despawn-Reads (serialize_entity_some w laws) c.despawns
            t good.despawns)
          (λ t2. change-after _ t2 [])
    apply_section_dynamic c Section.removals t good k =
        bind-after _ _ t _ _ tt []
          (apply_array-Reads w _ _ _ _ laws removals-Reads (λ r. item_some r.0 _) c.removals t
            good.removals)
          (λ t2. change-after _ t2 [])
    apply_section_dynamic c Section.changes t good k = bind-change _ _ t _ _ tt [] (λ t1.
        bind-after _ _ t1 _ _ tt []
          (apply_array-Reads w _ _ _ _ laws changes-Reads (λ r. item_some r.0 _) c.changes t1
            good.changes)
          (λ t2. change-after _ t2 []))
