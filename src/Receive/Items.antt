-- ===== src/Receive/Items.antt =====
-- client.rs: what the client keeps while it receives, and what each item of a message does to it.
-- Bevy's world and the functions of the registry are the operations of `World`; entities are numbers.
use bevy_mod_replication.Common.{
  ℕ, ◌+◌, Bool, Option, none, some, List, [], ◌∷◌, ◌++◌, if◌then◌else◌, Outcome, ok, panic, ◌>>=◌,
}
use bevy_mod_replication.Tick.{RepliconTick}
use bevy_mod_replication.Client.ConfirmHistory.{ConfirmHistory, new as new_history, set_last_tick}
use bevy_mod_replication.Client.ServerMutateTicks.{ServerMutateTicks}
use bevy_mod_replication.EntityMap.{
  ServerEntityMap, get_by_server, get_by_server_or_insert, remove_by_server, insert as map_insert,
}

-- `insert_history` goes through the queue, which `apply_queue` applies. `remove`, `write` and
-- `consume_or_write` are the functions of a component, for the entity and its markers: they may use
-- the queue and map entities, and they panic where a user's function does.
pub record World (W Component : Type 0) : Type 0 where
  pub exists : W → ℕ → Bool
  pub insert_replicated : ℕ → W → W
  pub spawn_replicated : W → W × ℕ
  pub despawn : ℕ → RepliconTick → W → W
  pub history : W → ℕ → Option ConfirmHistory
  pub set_history : ℕ → ConfirmHistory → W → W
  pub insert_history : ℕ → ConfirmHistory → W → W
  pub need_history : W → ℕ → Bool
  pub registered : ℕ → Bool
  pub remove : ℕ → ℕ → RepliconTick → W → Outcome W
  pub write : ℕ → ℕ → Component → RepliconTick → W × ServerEntityMap → Outcome (W × ServerEntityMap)
  pub consume_or_write :
      ℕ → ℕ → Component → RepliconTick → W × ServerEntityMap → Outcome (W × ServerEntityMap)
  pub apply_queue : W → W

-- `ClientReplicationStats`.
pub record Stats : Type 0 where
  pub entities_changed : ℕ
  pub components_changed : ℕ
  pub mappings : ℕ
  pub despawns : ℕ
  pub messages : ℕ
  pub bytes : ℕ

abbrev pub no_stats : Stats
no_stats = record {
  entities_changed = 0;
  components_changed = 0;
  mappings = 0;
  despawns = 0;
  messages = 0;
  bytes = 0;
}

-- The world and the resources of `ReceiveParams`; `tick_events` are the `MutateTickReceived` events.
pub record Client (W : Type 0) : Type 0 where
  pub world : W
  pub entity_map : ServerEntityMap
  pub update_tick : RepliconTick
  pub stats : Option Stats
  pub mutate_ticks : Option ServerMutateTicks
  pub replicated_events : List (ℕ × RepliconTick)
  pub tick_events : List RepliconTick

module _ {W : Type 0} where
  abbrev pub count : (Stats → Stats) → Client W → Client W
  count f t = record t { stats = elim t.stats [ none ↦ none | some s ↦ some (f s) ] }

  abbrev pub count_message : ℕ → Client W → Client W
  count_message end_pos =
      count (λ s. record s { messages = s.messages + 1; bytes = s.bytes + end_pos })

  abbrev pub count_mappings : ℕ → Client W → Client W
  count_mappings len = count (λ s. record s { mappings = s.mappings + len })

  abbrev pub count_despawns : ℕ → Client W → Client W
  count_despawns len = count (λ s. record s { despawns = s.despawns + len })

  abbrev pub count_entities : ℕ → Client W → Client W
  count_entities len = count (λ s. record s { entities_changed = s.entities_changed + len })

  abbrev pub count_components : ℕ → Client W → Client W
  count_components len = count (λ s. record s { components_changed = s.components_changed + len })

module _ {W Component : Type 0} (e : World W Component) where
  -- `apply_entity_mapping`, after the entities are read.
  unfoldable pub map_entity : ℕ → ℕ → Client W → Outcome (Client W)
  map_entity server_entity client_entity t =
      if e.exists t.world client_entity
      then (map_insert t.entity_map server_entity client_entity >>= λ m.
          ok (record t { world = e.insert_replicated client_entity t.world; entity_map = m }))
      else ok t

  -- `apply_despawn`, after the entity is read.
  unfoldable pub despawn_entity : RepliconTick → ℕ → Client W → Client W
  despawn_entity tick server_entity t =
      let r = remove_by_server t.entity_map server_entity in
      let world : W = elim r.1 [
        | none ↦ t.world
        | some client_entity ↦
            if e.exists t.world client_entity then e.despawn client_entity tick t.world else t.world
      ] in
      record t { entity_map = r.0; world = world }

  -- `get_by_server_or_insert` with a spawn where the entry is vacant, then `DeferredEntity::new`, which
  -- panics for an entity that is gone.
  unfoldable pub client_entity : ℕ → Client W → Outcome (Client W × ℕ)
  client_entity server_entity t =
      let spawned = e.spawn_replicated t.world in
      let r = get_by_server_or_insert t.entity_map server_entity spawned.1 in
      let world : W = elim (get_by_server t.entity_map server_entity) [
        | some _ ↦ t.world
        | none ↦ spawned.0
      ] in
      if e.exists world r.1 then ok (record t { entity_map = r.0; world = world }, r.1) else panic

  unfoldable pub confirm_tick : Bool → ℕ → RepliconTick → Client W → Outcome (Client W)
  confirm_tick checks entity tick t =
      let events = t.replicated_events ++ ((entity, tick) ∷ []) in
      elim (e.history t.world entity) [
        | some history ↦ set_last_tick checks history tick >>= λ h.
            ok (record t { world = e.set_history entity h t.world; replicated_events = events })
        | none ↦ ok (record t {
          world = e.insert_history entity (new_history tick) t.world;
          replicated_events = events;
        })
      ]

  unfoldable pub remove_component : ℕ → RepliconTick → ℕ → Client W → Outcome (Client W)
  remove_component entity tick fns_id t =
      if e.registered fns_id
      then (e.remove entity fns_id tick t.world >>= λ world. ok (record t { world = world }))
      else panic

  -- `registry.get`, which panics for an id that it did not give out.
  unfoldable pub get_fns : ℕ → Client W → Outcome (Client W)
  get_fns fns_id t = if e.registered fns_id then ok t else panic

  unfoldable pub write_component : ℕ → RepliconTick → ℕ → Component → Client W → Outcome (Client W)
  write_component entity tick fns_id c t =
      e.write entity fns_id c tick (t.world, t.entity_map) >>= λ r.
      ok (record t { world = r.0; entity_map = r.1 })

  unfoldable pub consume_or_write_component :
      ℕ → RepliconTick → ℕ → Component → Client W → Outcome (Client W)
  consume_or_write_component entity tick fns_id c t =
      e.consume_or_write entity fns_id c tick (t.world, t.entity_map) >>= λ r.
      ok (record t { world = r.0; entity_map = r.1 })

  -- `queue.apply`.
  unfoldable pub apply_queue : Client W → Client W
  apply_queue t = record t { world = e.apply_queue t.world }
