-- ===== src/Server/Collect.antt =====
-- server.rs: what `send_replication` collects into the messages of the clients, and sends. The engine
-- gives each replicated entity with its components and their change ticks (`EntityData`); serialization
-- into memory does not fail. The lists of messages and of clients are of one length.
use bevy_mod_replication.Common.{
  ℕ, Bool, true, false, not, ◌&&◌, ◌||◌, Option, none, some, List, [], ◌∷◌, length, if◌then◌else◌,
  any, map, ◌==◌, Outcome, ok, ◌>>=◌,
}
use bevy_mod_replication.Common.Maps.{lookup, insert}
use bevy_mod_replication.Tick.{RepliconTick}
use bevy_mod_replication.Visibility.{Visibility, state, is_visible, update as visibility_update}
use bevy_mod_replication.Clients.{
  ReplicatedClient, ClientBuffers, set_update_tick, set_mutation_tick, mutation_tick,
  remove_despawned, drain_lost_visibility,
}
use bevy_mod_replication.Backend.Server.{Bytes, RepliconServer}
use bevy_mod_replication.Wire.{Wire}
use bevy_mod_replication.Messages.{
  Range, write_mappings, write_fn_ids, write_entity, write_component, write_tick,
}
use bevy_mod_replication.Messages.Mutate.{
  MutateMessage, start_entity_mutations, add_mutated_entity, add_mutated_component,
  clear as mutate_clear, is_empty as mutate_is_empty, send as mutate_send,
}
use bevy_mod_replication.Messages.Update.{
  UpdateMessage, default as update_default, clear as update_clear, is_empty as update_is_empty,
  send as update_send, set_mappings, add_despawn, add_removals, start_entity_changes,
  add_changed_entity, add_inserted_component, take_mutations,
}

-- A client with its messages.
pub record Recipient : Type 0 where
  pub client : ReplicatedClient
  pub update_message : UpdateMessage
  pub mutate_message : MutateMessage

abbrev pub no_mutations : MutateMessage
no_mutations = record { entities = []; mutations = []; mutations_written = false }

-- `ReplicationMessages::reset`, for the messages of the given clients.
unfoldable pub reset_messages :
    List (UpdateMessage × MutateMessage) → List ReplicatedClient → List Recipient
reset_messages messages [] = []
reset_messages [] (c ∷ cs) =
    record { client = c; update_message = update_default; mutate_message = no_mutations }
    ∷ reset_messages [] cs
reset_messages (m ∷ ms) (c ∷ cs) =
    record { client = c; update_message = update_clear m.0; mutate_message = mutate_clear m.1 }
    ∷ reset_messages ms cs

-- A component of an entity: `added` is `is_added` for the system's ticks, and `changed` is `is_changed`
-- for a tick and the current one.
pub record ComponentData (Component : Type 0) : Type 0 where
  pub fns_id : ℕ
  pub value : Component
  pub added : Bool
  pub changed : ℕ → Bool

pub record EntityData (Component : Type 0) : Type 0 where
  pub entity : ℕ
  pub marker_added : Bool
  pub components : List (ComponentData Component)

-- The buffer with the cached ranges of the current entity and component.
pub record Written : Type 0 where
  pub serialized : Bytes
  pub entity_range : Option Range
  pub component_range : Option Range

abbrev pub is_hidden : Visibility → Bool
is_hidden Visibility.hidden = true
is_hidden _ = false

abbrev pub is_gained : Visibility → Bool
is_gained Visibility.gained = true
is_gained _ = false

-- The cached range, or what is written afresh.
unfoldable pub or_write : Written → Option Range → Written × Range → Written × Range
or_write s (some range) written = (s, range)
or_write s none written = written

unfoldable pub each_client :
    (Written → Recipient → Outcome (Written × Recipient))
    → Written
    → List Recipient
    → Outcome (Written × List Recipient)
each_client f s [] = ok (s, [])
each_client f s (r ∷ rs) =
    f s r >>= λ x. (each_client f x.0 rs >>= λ rest. ok (rest.0, x.1 ∷ rest.1))

-- The start of an entity's changes for one client.
unfoldable pub start_entity : ℕ → Recipient → Recipient
start_entity entity r = record r {
  update_message = start_entity_changes r.update_message (state r.client.visibility entity);
  mutate_message = start_entity_mutations r.mutate_message;
}

module _ {Component : Type 0} (w : Wire Component) where
  unfoldable pub collect_mappings :
      Bytes
      → List (ℕ × List (ℕ × ℕ))
      → List Recipient
      → Bytes × List (ℕ × List (ℕ × ℕ)) × List Recipient
  collect_mappings s map [] = (s, map, [])
  collect_mappings s map (r ∷ rs) = elim (lookup r.client.id map) [
    | none ↦ let rest = collect_mappings s map rs in (rest.0, rest.1, r ∷ rest.2)
    | some mappings ↦
        let written = write_mappings w s mappings in
        let rest = collect_mappings written.0 (insert r.client.id [] map) rs in
        (
          rest.0,
          rest.1,
          record r { update_message = set_mappings r.update_message written.1 (length mappings) }
              ∷ rest.2,
        )
  ]

  unfoldable pub despawn_for : ℕ → Range → Recipient → Recipient
  despawn_for entity range r = record r {
    update_message =
        if is_visible r.client.visibility entity
        then add_despawn r.update_message range
        else r.update_message;
    client = remove_despawned r.client entity;
  }

  unfoldable pub collect_despawned : Bytes → List ℕ → List Recipient → Bytes × List Recipient
  unfolding despawn_for
  collect_despawned s [] rs = (s, rs)
  collect_despawned s (entity ∷ entities) rs =
      let written = write_entity w s entity in
      collect_despawned written.0 entities (map (despawn_for entity written.1) rs)

  unfoldable pub add_lost : Bytes → List ℕ → UpdateMessage → Bytes × UpdateMessage
  add_lost s [] m = (s, m)
  add_lost s (entity ∷ entities) m =
      let written = write_entity w s entity in add_lost written.0 entities (add_despawn m written.1)

  unfoldable pub collect_lost : Bytes → List Recipient → Bytes × List Recipient
  unfolding add_lost
  collect_lost s [] = (s, [])
  collect_lost s (r ∷ rs) =
      let lost = drain_lost_visibility r.client in
      let added = add_lost s lost.0 r.update_message in
      let rest = collect_lost added.0 rs in
      (rest.0, record r { client = lost.1; update_message = added.1 } ∷ rest.1)

  unfoldable pub collect_despawns : Bytes → List ℕ → List Recipient → Bytes × List Recipient
  unfolding collect_despawned collect_lost
  collect_despawns s despawns rs = let r = collect_despawned s despawns rs in collect_lost r.0 r.1

  -- The removal buffer: entities with the ids of the removed components and of their functions.
  unfoldable pub collect_removals :
      Bytes → List (ℕ × List (ℕ × ℕ)) → List Recipient → Bytes × List Recipient
  collect_removals s [] rs = (s, rs)
  collect_removals s (removal ∷ removals) rs =
      let named = write_entity w s removal.0 in
      let ids = write_fn_ids w named.0 (map (λ id. id.1) removal.1) in
      let add : Recipient → Recipient = λ r. record r {
        update_message =
            if is_visible r.client.visibility removal.0
            then add_removals r.update_message named.1 (length removal.1) ids.1
            else r.update_message;
      } in
      collect_removals ids.0 removals (map add rs)

  unfoldable pub write_entity_cached : Written → ℕ → Written × Range
  unfolding or_write
  write_entity_cached s entity =
      let written = write_entity w s.serialized entity in
      or_write s s.entity_range
        (record s { serialized = written.0; entity_range = some written.1 }, written.1)

  unfoldable pub write_component_cached : Written → ComponentData Component → Written × Range
  unfolding or_write
  write_component_cached s c =
      let written = write_component w s.serialized (c.fns_id, c.value) in
      or_write s s.component_range
        (record s { serialized = written.0; component_range = some written.1 }, written.1)

  -- The tick that a component's mutations are counted from: `none` where it is an insertion.
  unfoldable pub mutations_since :
      EntityData Component → ComponentData Component → Recipient → Option ℕ
  mutations_since d c r =
      if d.marker_added || (is_gained r.update_message.entity_visibility || c.added)
      then none
      else mutation_tick r.client d.entity

  unfoldable pub collect_mutation :
      EntityData Component
      → ComponentData Component
      → Written
      → Recipient
      → Outcome (Written × Recipient)
  unfolding write_entity_cached write_component_cached
  collect_mutation d c s r =
      let named : Written × MutateMessage =
        if r.mutate_message.mutations_written
        then (s, r.mutate_message)
        else (let e = write_entity_cached s d.entity in
            (e.0, add_mutated_entity r.mutate_message d.entity e.1)) in
      let component = write_component_cached named.0 c in
      add_mutated_component named.1 component.1 >>= λ m.
      ok (component.0, record r { mutate_message = m })

  unfoldable pub collect_insertion :
      EntityData Component
      → ComponentData Component
      → Written
      → Recipient
      → Outcome (Written × Recipient)
  unfolding write_entity_cached write_component_cached
  collect_insertion d c s r =
      let named : Written × UpdateMessage =
        if r.update_message.entity_written
        then (s, r.update_message)
        else (let e = write_entity_cached s d.entity in
            (e.0, add_changed_entity r.update_message e.1)) in
      let component = write_component_cached named.0 c in
      add_inserted_component named.1 component.1 >>= λ m.
      ok (component.0, record r { update_message = m })

  -- A component for one client: a mutation where it is changed since the tick, or an insertion.
  unfoldable pub collect_since :
      EntityData Component
      → ComponentData Component
      → Written
      → Recipient
      → Option ℕ
      → Outcome (Written × Recipient)
  unfolding collect_mutation collect_insertion
  collect_since d c s r none = collect_insertion d c s r
  collect_since d c s r (some tick) = if c.changed tick then collect_mutation d c s r else ok (s, r)

  unfoldable pub collect_for :
      EntityData Component
      → ComponentData Component
      → Written
      → Recipient
      → Outcome (Written × Recipient)
  unfolding mutations_since collect_since
  collect_for d c s r =
      if is_hidden r.update_message.entity_visibility
      then ok (s, r)
      else collect_since d c s r (mutations_since d c r)

  unfoldable pub collect_components :
      EntityData Component
      → List (ComponentData Component)
      → Written
      → List Recipient
      → Outcome (Written × List Recipient)
  unfolding each_client collect_for
  collect_components d [] s rs = ok (s, rs)
  collect_components d (c ∷ cs) s rs =
      each_client (collect_for d c) (record s { component_range = none }) rs >>= λ x.
      collect_components d cs x.0 x.1

  -- The mutations are taken over where the entity is new or the update message has something of it.
  unfoldable pub take_entity :
      Bool
      → List (ℕ × List (ℕ × ℕ))
      → ℕ
      → EntityData Component
      → Bool
      → Recipient
      → Outcome Recipient
  take_entity checks removals this_run d new_entity r =
      let removed = any (λ removal. removal.0 == d.entity) removals in
      if new_entity || (r.update_message.entity_written || removed)
      then (take_mutations checks r.update_message r.mutate_message >>= λ m. ok (record {
        client = set_mutation_tick r.client d.entity this_run;
        update_message = m.0;
        mutate_message = m.1;
      }))
      else ok r

  -- A new entity without components is written too.
  unfoldable pub write_new : EntityData Component → Bool → Written → Recipient → Written × Recipient
  unfolding write_entity_cached
  write_new d new_entity s r =
      let e = write_entity_cached s d.entity in
      if new_entity && not r.update_message.entity_written
      then (e.0, record r { update_message = add_changed_entity r.update_message e.1 })
      else (s, r)

  unfoldable pub finish_entity :
      Bool
      → List (ℕ × List (ℕ × ℕ))
      → ℕ
      → EntityData Component
      → Written
      → Recipient
      → Outcome (Written × Recipient)
  unfolding take_entity write_new
  finish_entity checks removals this_run d s r =
      let new_entity = d.marker_added || is_gained r.update_message.entity_visibility in
      let finished = take_entity checks removals this_run d new_entity r >>= λ taken.
      ok (write_new d new_entity s taken) in
      if is_hidden r.update_message.entity_visibility then ok (s, r) else finished

  unfoldable pub collect_changes :
      Bool
      → List (ℕ × List (ℕ × ℕ))
      → ℕ
      → List (EntityData Component)
      → Bytes
      → List Recipient
      → Outcome (Bytes × List Recipient)
  unfolding start_entity collect_components finish_entity each_client
  collect_changes checks removals this_run [] s rs = ok (s, rs)
  collect_changes checks removals this_run (d ∷ ds) s rs =
      collect_components d d.components
        (record { serialized = s; entity_range = none; component_range = none })
        (map (start_entity d.entity) rs)
      >>= λ x.
          (each_client (finish_entity checks removals this_run d) x.0 x.1 >>= λ y.
          collect_changes checks removals this_run ds (y.0.serialized) y.1)

  unfoldable pub write_tick_cached : Bytes → Option Range → RepliconTick → Bytes × Range
  write_tick_cached s cached tick = elim cached [
    | some range ↦ (s, range)
    | none ↦ write_tick w s tick
  ]

  unfoldable pub send_messages :
      Bool
      → RepliconTick
      → Bool
      → ℕ
      → ℕ
      → Bytes
      → Option Range
      → RepliconServer
      → ClientBuffers
      → List Recipient
      → Outcome (RepliconServer × ClientBuffers × List Recipient)
  unfolding write_tick_cached
  send_messages checks server_tick track this_run elapsed s cached server buffers [] =
      ok (server, buffers, [])
  send_messages checks server_tick track this_run elapsed s cached server buffers (r ∷ rs) =
      let t = write_tick_cached s cached server_tick in
      let updated : Outcome (Bytes × Option Range × RepliconServer × ReplicatedClient) =
        if update_is_empty r.update_message
        then ok (s, cached, server, r.client)
        else (update_send w checks r.update_message server r.client.id t.0 t.1 >>= λ sent.
            ok (t.0, some t.1, sent, set_update_tick r.client server_tick)) in
      updated >>= λ u.
      (let t' = write_tick_cached u.0 u.1 server_tick in
        let mutated : Outcome
            (Bytes × Option Range × RepliconServer × ReplicatedClient × ClientBuffers) =
          if mutate_is_empty r.mutate_message && not track
          then ok (u.0, u.1, u.2, u.3, buffers)
          else (mutate_send w checks r.mutate_message u.2 u.3 buffers t'.0 track t'.1 this_run
                elapsed
              >>= λ sent. ok (t'.0, some t'.1, sent.0, sent.1, sent.2)) in
        mutated >>= λ m.
        (send_messages checks server_tick track this_run elapsed m.0 m.1 m.2 m.4 rs >>= λ rest. ok (
          rest.0,
          rest.1,
          record r { client = record (m.3) { visibility = visibility_update m.3.visibility } }
              ∷ rest.2,
        )))

  -- The parts of `send_replication`, one after the other, from an empty buffer.
  unfoldable pub send_replication :
      Bool
      → RepliconTick
      → Bool
      → ℕ
      → ℕ
      → List (ℕ × List (ℕ × ℕ))
      → List ℕ
      → List (ℕ × List (ℕ × ℕ))
      → List (EntityData Component)
      → RepliconServer
      → ClientBuffers
      → List (UpdateMessage × MutateMessage)
      → List ReplicatedClient
      → Outcome (List (ℕ × List (ℕ × ℕ)) × RepliconServer × ClientBuffers × List Recipient)
  unfolding reset_messages collect_mappings collect_despawns collect_removals collect_changes
      send_messages
  send_replication checks server_tick track this_run elapsed entity_map despawns removals entities
        server buffers messages clients =
      let mapped = collect_mappings [] entity_map (reset_messages messages clients) in
      let despawned = collect_despawns mapped.0 despawns mapped.2 in
      let removed = collect_removals despawned.0 removals despawned.1 in
      collect_changes checks removals this_run entities removed.0 removed.1 >>= λ changed.
      (send_messages checks server_tick track this_run elapsed changed.0 none server buffers
          changed.1
        >>= λ sent. ok (mapped.1, sent.0, sent.1, sent.2))
