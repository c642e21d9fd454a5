-- ===== src/Receive/Mutations.antt =====
-- client.rs: how the client receives mutate messages: the buffer that they wait in, and
-- what is applied of it. `partition_point` is the one of the standard
-- library. A cursor past the end is at the end. A position is of 64 bits: with a data size, it panics
-- past them under overflow checks and wraps otherwise, so that the cursor may go back; the fuel of
-- `apply_array` is that of a cursor that does not.
pub mod Kept
pub mod Judge
pub mod Buffer
pub mod Wrap
use bevy_mod_replication.Common.{
  ℕ, zero, suc, ◌+◌, ◌-◌, ◌*◌, ◌%◌, Bool, true, false, not, ◌||◌, Option, none, some, List, [], ◌∷◌,
  ◌++◌, length, take, drop, ltb, leb, ◌==◌, if◌then◌else◌, Outcome, ok, panic, ◌>>=◌,
}
use bevy_mod_replication.Tick.{RepliconTick, tick_lt, tick_gt, sub}
use bevy_mod_replication.Client.ConfirmHistory.{ConfirmHistory, u64_bits, set, set_last_tick}
use bevy_mod_replication.Client.ServerMutateTicks.{ServerMutateTicks, confirm as confirm_ticks}
use bevy_mod_replication.EntityMap.{ServerEntityMap, get_by_server, clear as clear_map}
use bevy_mod_replication.Backend.Server.{Bytes}
use bevy_mod_replication.Backend.Client.{RepliconClient, receive, received_count, send}
use bevy_mod_replication.Wire.{Wire, u64_mod, Decoded, value, error, Reader}
use bevy_mod_replication.Wire.Entities.{deserialize_entity}
use bevy_mod_replication.Receive.{apply_update_message, finish_entity}
use bevy_mod_replication.Receive.Items.{
  World, Client, no_stats, count_message, count_entities, get_fns, write_component,
  consume_or_write_component,
}
use bevy_mod_replication.Receive.Steps.{
  Action, ArrayKind, Step, done, failed, panicked_at, unfinished, resume, settle, read, run, change,
  apply_array, pure, ◌>>=◌ as bind,
}

-- `BufferedMutate`.
pub record BufferedMutate : Type 0 where
  pub update_tick : RepliconTick
  pub message_tick : RepliconTick
  pub messages_count : ℕ
  pub message : Bytes

-- `BufferedMutations::insert`.
unfoldable pub insert :
    ((BufferedMutate → Bool) → List BufferedMutate → ℕ)
    → List BufferedMutate
    → BufferedMutate
    → List BufferedMutate
insert partition_point buffered mutation =
    let index =
      partition_point (λ other. tick_lt mutation.message_tick other.message_tick) buffered in
    take index buffered ++ (mutation ∷ drop index buffered)

-- The addition of two numbers of 64 bits.
unfoldable pub add_u64 : Bool → ℕ → ℕ → Outcome ℕ
add_u64 checks a b =
    if ltb (a + b) u64_mod then ok (a + b) else if checks then panic else ok ((a + b) % u64_mod)

-- `cursor.position()`, from the message and what is left of it.
abbrev pub position : Bytes → Bytes → ℕ
position message bytes = length message - length bytes

-- `cursor.set_position`.
abbrev pub set_position : {S : Type 0} → Bytes → Outcome ℕ → S → Step S (Unit {0})
set_position message (ok pos) t = done t tt (drop pos message)
set_position message panic t = panicked_at

-- What becomes of the mutations of an entity.
pub data Verdict : Type 0 where
  ignore : Verdict
  apply : Bool → Verdict

module _ {W Component : Type 0} (w : Wire Component) (e : World W Component) (checks : Bool) where
  -- `buffer_mutate_message`, with the index to acknowledge.
  unfoldable pub buffer_mutate_message :
      ((BufferedMutate → Bool) → List BufferedMutate → ℕ)
      → Bytes
      → Action (Client W × List BufferedMutate) ℕ
  buffer_mutate_message partition_point message (t, buffered) bytes =
      let counted = count_message (length message) t in
      let messages_count : Action (Client W × List BufferedMutate) ℕ = elim t.mutate_ticks [
        | none ↦ pure 1
        | some _ ↦ read w.read_varint
      ] in
      bind (read w.read_tick)
        (λ update_tick. bind (read w.read_tick) (λ message_tick. bind messages_count (λ count.
          bind (read w.read_index) (λ mutate_index. λ s rest.
            done
              (
                s.0,
                insert partition_point s.1 (record {
                  update_tick = update_tick;
                  message_tick = message_tick;
                  messages_count = count;
                  message = rest;
                }),
              )
              mutate_index []))))
        (counted, buffered) message

  -- The decision on an entity's mutations, with the tick confirmed. Entities of mutate messages are
  -- expected to have a history.
  unfoldable pub judge : RepliconTick → ℕ → Client W → Outcome (Client W × Verdict)
  judge tick entity t =
      let accept : ConfirmHistory → Bool → Client W × Verdict = λ h new_tick. (
        record t {
          world = e.set_history entity h t.world;
          replicated_events = t.replicated_events ++ ((entity, tick) ∷ []);
        },
        Verdict.apply new_tick,
      ) in
      let decide : Option ConfirmHistory → Outcome (Client W × Verdict) = λ history. elim history [
        | none ↦ panic
        | some h ↦
            let new_tick = tick_gt tick h.last_tick in
            let ago = sub h.last_tick tick in
            if new_tick
            then (set_last_tick checks h tick >>= λ h'. ok (accept h' true))
            else if not (e.need_history t.world entity)
            then ok (t, ignore)
            else if leb u64_bits ago
            then ok (t, ignore)
            else (set checks h ago >>= λ h'. ok (accept h' false))
      ] in
      if e.exists t.world entity then decide (e.history t.world entity) else panic

  unfoldable pub apply_mutation : RepliconTick → Bool → ℕ → Action (Client W) (Unit {0})
  apply_mutation tick new_tick entity = bind (read w.read_fns_id) (λ fns_id.
      bind (change (get_fns e fns_id)) (λ _. bind (read (w.read_component fns_id)) (λ c. change (
        if new_tick
        then write_component e entity tick fns_id c
        else consume_or_write_component e entity tick fns_id c))))

  -- `while cursor.position() < end_pos`.
  unfoldable pub until_position :
      ℕ → Bytes → ℕ → ℕ → Action (Client W) (Unit {0}) → Action (Client W) ℕ
  until_position zero message end_pos len f t bytes =
      if ltb (position message bytes) end_pos then unfinished else done t len bytes
  until_position (suc fuel) message end_pos len f t bytes =
      let next = bind f (λ _. until_position fuel message end_pos (len + 1) f) t bytes in
      if ltb (position message bytes) end_pos then next else done t len bytes

  -- `cursor.set_position(cursor.position() + data_size)`.
  unfoldable pub skip : Bytes → ℕ → Action (Client W) (Unit {0})
  unfolding add_u64
  skip message data_size t bytes =
      set_position message (add_u64 checks (position message bytes) data_size) t

  -- The components of an entity, to the end position.
  unfoldable pub apply_to :
      RepliconTick → Bytes → ℕ → Bool → Outcome ℕ → Action (Client W) (Unit {0})
  unfolding until_position apply_mutation
  apply_to tick message entity new_tick panic t bytes = panicked_at
  apply_to tick message entity new_tick (ok end_pos) t bytes =
      bind
        (until_position (suc (length bytes)) message end_pos 0
          (apply_mutation tick new_tick entity))
        (λ components_count. finish_entity w e checks components_count) t bytes

  unfoldable pub apply_verdict :
      RepliconTick → Bytes → ℕ → ℕ → Verdict → Action (Client W) (Unit {0})
  unfolding skip apply_to add_u64
  apply_verdict tick message data_size entity ignore t bytes = skip message data_size t bytes
  apply_verdict tick message data_size entity (apply new_tick) t bytes =
      apply_to tick message entity new_tick (add_u64 checks (position message bytes) data_size) t
        bytes

  -- An entity that is not mapped: its mutations are skipped.
  unfoldable pub apply_found : RepliconTick → Bytes → ℕ → Option ℕ → Action (Client W) (Unit {0})
  unfolding apply_verdict skip
  apply_found tick message data_size none t bytes = skip message data_size t bytes
  apply_found tick message data_size (some entity) t bytes =
      bind (run (judge tick entity)) (apply_verdict tick message data_size entity) t bytes

  -- `message` is what the cursor goes over.
  unfoldable pub apply_mutations : RepliconTick → Bytes → Action (Client W) (Unit {0})
  unfolding apply_found
  apply_mutations tick message = bind (read (deserialize_entity w)) (λ server_entity.
      bind (read w.read_varint) (λ data_size. λ t bytes.
        apply_found tick message data_size (get_by_server t.entity_map server_entity) t bytes))

  -- `confirm` of `ServerMutateTicks`, where they are tracked, and its event.
  unfoldable pub confirm_mutate : BufferedMutate → Client W → Outcome (Client W)
  confirm_mutate m t = elim t.mutate_ticks [
    | none ↦ ok t
    | some ticks ↦ confirm_ticks checks ticks m.message_tick m.messages_count >>= λ r.
        ok (record t {
          mutate_ticks = some r.0;
          tick_events = if r.1 then t.tick_events ++ (m.message_tick ∷ []) else t.tick_events;
        })
  ]

  -- One message that is ready; the result is whether it has an error.
  unfoldable pub apply_mutate : BufferedMutate → Client W → Step (Client W) Bool
  apply_mutate m t =
      elim (apply_array w ArrayKind.dynamic (apply_mutations m.message_tick m.message) t
        m.message) [
          | done t' len _ ↦
              resume (change (confirm_mutate m) (count_entities len t') []) (λ _. pure false)
          | failed t' ↦ resume (change (confirm_mutate m) t' []) (λ _. pure true)
          | panicked_at ↦ panicked_at
          | unfinished ↦ unfinished
        ]

  -- The messages that stay, and whether one of the others has an error.
  unfoldable pub apply_mutate_messages :
      RepliconTick → List BufferedMutate → Client W → Step (Client W) (List BufferedMutate × Bool)
  unfolding apply_mutate
  apply_mutate_messages update_tick [] t = done t ([], false) []
  apply_mutate_messages update_tick (m ∷ ms) t =
      let kept = resume (apply_mutate_messages update_tick ms t) (λ r. pure (m ∷ r.0, r.1)) in
      let applied =
        resume (apply_mutate m t) (λ e t' _.
          resume (apply_mutate_messages update_tick ms t') (λ r. pure (r.0, e || r.1))) in
      if tick_gt m.update_tick update_tick then kept else applied
