-- ===== src/Events/Queue.antt =====
-- core/event/server_event.rs: how the client gets the server's events: a message whose tick is after
-- the update tick waits in `ServerEventQueue`. Its `ListOrderedMultimap` is third-party: `Multimap` has
-- its operations, and `IsMultimap` what they do to its entries, in the order of insertion. An insertion
-- for a key that has entries is left open.
-- `Events` of the engine is the list of the events it holds. The functions of a registered event are
-- fields; the panics of a user's function are kept. The log output is left out.
use bevy_mod_replication.Common.{
  ℕ, zero, suc, ◌≡◌, Bool, true, false, Option, none, some, List, [], ◌∷◌, ◌++◌, any, ◌==◌, length,
  if◌then◌else◌, Outcome, ok, panic, ◌>>=◌,
}
use bevy_mod_replication.Tick.{RepliconTick, tick_gt}
use bevy_mod_replication.EntityMap.{ServerEntityMap, to_client}
use bevy_mod_replication.Backend.Server.{Bytes}
use bevy_mod_replication.Backend.Client.{RepliconClient, receive as client_receive}
use bevy_mod_replication.Wire.{Decoded, value, error, panicked, Reader}

pub record Multimap (Q : Type 0) : Type 0 where
  pub front : Q → Option (RepliconTick × Bytes)
  pub pop_front : Q → Q × Option (RepliconTick × Bytes)
  pub insert : Q → RepliconTick → Bytes → Q
  pub values_len : Q → ℕ
  pub clear : Q → Q

abbrev pub first : List (RepliconTick × Bytes) → Option (RepliconTick × Bytes)
first [] = none
first (entry ∷ rest) = some entry

pub record IsMultimap {Q : Type 0} (m : Multimap Q) (entries : Q → List (RepliconTick × Bytes))
    : Type 0 where
  pub front_first : (q : Q) → m.front q ≡ first (entries q)
  pub pop_first :
      (q : Q) (entry : RepliconTick × Bytes) (rest : List (RepliconTick × Bytes))
      → entries q ≡ entry ∷ rest
      → ((m.pop_front q).1 ≡ some entry) × (entries (m.pop_front q).0 ≡ rest)
  pub insert_last :
      (q : Q) (tick : RepliconTick) (message : Bytes)
      → any (λ entry. entry.0 == tick) (entries q) ≡ false
      → entries (m.insert q tick message) ≡ entries q ++ ((tick, message) ∷ [])
  pub values_len_length : (q : Q) → m.values_len q ≡ length (entries q)
  pub clear_nil : (q : Q) → entries (m.clear q) ≡ []

-- What a loop comes to; `unfinished` where its fuel is out.
pub data Progress {ℓ} (A : Type ℓ) : Type ℓ where
  done : A → Progress A
  stopped : Progress A
  unfinished : Progress A

abbrev pub returned {ℓ} : {A : Type ℓ} → Outcome A → Progress A
returned (ok a) = done a
returned panic = stopped

abbrev pub after {ℓ κ} : {A : Type ℓ} {B : Type κ} → Progress A → (A → Outcome B) → Progress B
after (done a) f = returned (f a)
after stopped f = stopped
after unfinished f = unfinished

-- `ServerEvent`, with the functions that are registered for the type. `deserialize` has the context's
-- map of entities and its list of the entities that could not be mapped, which it may add to.
pub record ServerEvent (E : Type 0) : Type 0 where
  pub independent : Bool
  pub events_id : ℕ
  pub server_events_id : ℕ
  pub queue_id : ℕ
  pub channel_id : ℕ
  pub serialize : E → Option Bytes
  pub deserialize : ServerEntityMap → List ℕ → Bytes → List ℕ × Decoded E

-- `Entity::PLACEHOLDER` of the engine is an argument.
unfoldable pub map_found : ℕ → List ℕ → ℕ → Option ℕ → List ℕ × ℕ
map_found placeholder invalid_entities entity (some mapped_entity) =
    (invalid_entities, mapped_entity)
map_found placeholder invalid_entities entity none =
    (invalid_entities ++ (entity ∷ []), placeholder)

unfoldable pub map_entity : ℕ → ServerEntityMap → List ℕ → ℕ → List ℕ × ℕ
unfolding map_found
map_entity placeholder entity_map invalid_entities entity =
    map_found placeholder invalid_entities entity (to_client entity_map entity)

module _ {E : Type 0} where
  unfoldable pub is_independent : ServerEvent E → Bool
  is_independent event_data = event_data.independent

  unfoldable pub make_independent : ServerEvent E → ServerEvent E
  make_independent event_data = record event_data { independent = true }

  -- `map_entities` of `E` is an argument: it takes each entity through the mapper, in turn.
  unfoldable pub map_decoded : (List ℕ → E → List ℕ × E) → List ℕ → Decoded E → List ℕ × Decoded E
  map_decoded map_entities invalid_entities (value event rest) =
      let r = map_entities invalid_entities event in (r.0, value r.1 rest)
  map_decoded map_entities invalid_entities error = (invalid_entities, error)
  map_decoded map_entities invalid_entities panicked = (invalid_entities, panicked)

  unfoldable pub default_deserialize_mapped :
      ((List ℕ → ℕ → List ℕ × ℕ) → List ℕ → E → List ℕ × E)
      → Reader E
      → ℕ
      → ServerEntityMap
      → List ℕ
      → Bytes
      → List ℕ × Decoded E
  unfolding map_entity map_decoded
  default_deserialize_mapped map_entities read_event placeholder entity_map invalid_entities
        message =
      map_decoded (map_entities (map_entity placeholder entity_map)) invalid_entities
        (read_event message)

  -- A message that refers to entities without a mapping is an error, and the list is cleared. A panic
  -- of the registered function comes before.
  unfoldable pub check_entities : List ℕ × Decoded E → List ℕ × Decoded E
  check_entities ([], decoded) = ([], decoded)
  check_entities (entity ∷ entities, panicked) = (entity ∷ entities, panicked)
  check_entities (entity ∷ entities, value event rest) = ([], error)
  check_entities (entity ∷ entities, error) = ([], error)

  unfoldable pub deserialize : ServerEvent E → ServerEntityMap → List ℕ → Bytes → List ℕ × Decoded E
  unfolding check_entities
  deserialize event_data entity_map invalid_entities message =
      check_entities (event_data.deserialize entity_map invalid_entities message)

module _ {Q : Type 0} (m : Multimap Q) where
  unfoldable pub pop_if_le : Q → RepliconTick → Q × Option (RepliconTick × Bytes)
  pop_if_le q update_tick = elim (m.front q) [
    | none ↦ (q, none)
    | some (tick, _) ↦ if tick_gt tick update_tick then (q, none) else m.pop_front q
  ]

  -- `reset_typed`.
  unfoldable pub reset_queue : Q → Q
  reset_queue q = m.clear q

-- What `receive_typed` changes: the events, the queue and the context's list of entities.
pub record Delivery (E Q : Type 0) : Type 0 where
  pub events : List E
  pub queue : Q
  pub invalid_entities : List ℕ

module _ {E Q : Type 0} (m : Multimap Q) (event_data : ServerEvent E)
    (entity_map : ServerEntityMap) where
  unfoldable pub apply_decoded : Delivery E Q → List ℕ × Decoded E → Outcome (Delivery E Q)
  apply_decoded d (invalid, value event rest) =
      ok (record d { events = d.events ++ (event ∷ []); invalid_entities = invalid })
  apply_decoded d (invalid, error) = ok (record d { invalid_entities = invalid })
  apply_decoded d (invalid, panicked) = panic

  unfoldable pub apply_event : Delivery E Q → Bytes → Outcome (Delivery E Q)
  unfolding deserialize apply_decoded
  apply_event d message =
      apply_decoded d (deserialize event_data entity_map d.invalid_entities message)

  -- A round of the loop, which goes on with `next` after an event.
  unfoldable pub apply_next :
      (Delivery E Q → Progress (Delivery E Q)) → Outcome (Delivery E Q) → Progress (Delivery E Q)
  apply_next next panic = stopped
  apply_next next (ok d) = next d

  unfoldable pub apply_popped :
      (Delivery E Q → Progress (Delivery E Q))
      → Delivery E Q
      → Q × Option (RepliconTick × Bytes)
      → Progress (Delivery E Q)
  unfolding apply_next apply_event
  apply_popped next d (queue, none) = done (record d { queue = queue })
  apply_popped next d (queue, some entry) =
      apply_next next (apply_event (record d { queue = queue }) entry.1)

  -- `while let Some(..) = queue.pop_if_le(update_tick)`.
  unfoldable pub apply_queued : ℕ → RepliconTick → Delivery E Q → Progress (Delivery E Q)
  unfolding apply_popped pop_if_le
  apply_queued zero update_tick d = unfinished
  apply_queued (suc fuel) update_tick d =
      apply_popped (apply_queued fuel update_tick) d (pop_if_le m d.queue update_tick)

  module _ (read_tick : Reader RepliconTick) where
    unfoldable pub queue_or_apply :
        RepliconTick → Delivery E Q → Decoded RepliconTick → Outcome (Delivery E Q)
    unfolding apply_event
    queue_or_apply update_tick d error = ok d
    queue_or_apply update_tick d panicked = panic
    queue_or_apply update_tick d (value tick rest) =
        if tick_gt tick update_tick
        then ok (record d { queue = m.insert d.queue tick rest })
        else apply_event d rest

    unfoldable pub receive_message : RepliconTick → Delivery E Q → Bytes → Outcome (Delivery E Q)
    unfolding queue_or_apply
    receive_message update_tick d message =
        if is_independent event_data
        then apply_event d message
        else queue_or_apply update_tick d (read_tick message)

    unfoldable pub receive_messages :
        RepliconTick → Delivery E Q → List Bytes → Outcome (Delivery E Q)
    unfolding receive_message
    receive_messages update_tick d [] = ok d
    receive_messages update_tick d (message ∷ rest) =
        receive_message update_tick d message >>= λ next. receive_messages update_tick next rest

    -- The messages that wait on the channel, after the queue.
    unfoldable pub receive_taken :
        {Float : Type 0}
        → RepliconTick
        → Delivery E Q
        → RepliconClient Float × List Bytes
        → Outcome (Delivery E Q × RepliconClient Float)
    unfolding receive_messages
    receive_taken update_tick d (client, messages) =
        receive_messages update_tick d messages >>= λ received. ok (received, client)

    unfoldable pub receive_channel :
        {Float : Type 0}
        → RepliconClient Float
        → RepliconTick
        → Delivery E Q
        → Outcome (Delivery E Q × RepliconClient Float)
    unfolding receive_taken
    receive_channel client update_tick d =
        client_receive client event_data.channel_id >>= receive_taken update_tick d

    -- Each round but the last takes an entry off the queue.
    unfoldable pub receive_typed :
        {Float : Type 0}
        → Delivery E Q
        → RepliconClient Float
        → RepliconTick
        → Progress (Delivery E Q × RepliconClient Float)
    unfolding apply_queued receive_channel
    receive_typed d client update_tick =
        after (apply_queued (suc (m.values_len d.queue)) update_tick d)
          (receive_channel client update_tick)
