-- ===== src/Clients/Acks.antt =====
-- core/replication/replicated_clients.rs: what an acknowledgement does to an entity's mutation tick.
use bevy_mod_replication.Common.{
  ℕ, ◌+◌, ◌≡◌, refl, Bool, Option, none, some, List, [], ◌∷◌, ltb, ◌==◌, if◌then◌else◌, length,
  arith,
}
use bevy_mod_replication.Common.Maps.{lookup, insert, erase, contains, lookup-insert, lookup-erase}
use bevy_mod_replication.Clients.{
  MutateInfo, ReplicatedClient, ClientBuffers, ack_entities, ack_mutate_message, mutation_tick,
  keep_newer, cleanup_older_mutations,
}

module _ (is_newer_than : ℕ → ℕ → ℕ → Bool) where
  -- An entity's tick after an acknowledgement: the message's, unless the entity's own is newer.
  abbrev pub raise : ℕ → ℕ → Option ℕ → Option ℕ
  raise tick message_tick none = none
  raise tick message_tick (some last_tick) =
      if is_newer_than last_tick message_tick tick then some last_tick else some message_tick

  pub lookup-ack_entities :
      (tick message_tick : ℕ) (entities : List ℕ) (ticks : List (ℕ × ℕ)) (e : ℕ)
      → lookup e (ack_entities is_newer_than tick message_tick entities ticks)
        ≡ (if contains e entities then raise tick message_tick (lookup e ticks) else lookup e ticks)
  unfolding ack_entities contains
  lookup-ack_entities tick message_tick [] ticks e = refl
  lookup-ack_entities tick message_tick (entity ∷ rest) ticks e = ground (
    arith,
    lookup-ack_entities tick message_tick rest ticks e,
    lookup-ack_entities tick message_tick rest (insert entity message_tick ticks) e,
    lookup-insert entity e message_tick ticks,
  )

  -- An acknowledgement of a message that is registered sets the mutation tick of each of its
  -- entities to the message's tick, unless the entity's tick is newer; an entity that has no tick
  -- gets none, and every other entity keeps its own. Only this message is taken off, and to
  -- acknowledge it again changes nothing.
  pub ack_mutate_message-mutation_tick :
      (c : ReplicatedClient) (b : ClientBuffers) (tick index : ℕ) (info : MutateInfo)
      → lookup index c.mutations ≡ some info
      → let r = ack_mutate_message is_newer_than c b tick index in
        ((e : ℕ)
          → mutation_tick r.0 e ≡ (
              if contains e info.entities
              then raise tick info.tick (mutation_tick c e)
              else mutation_tick c e))
        × ((i : ℕ) → lookup i r.0.mutations ≡ (if index == i then none else lookup i c.mutations))
        × (ack_mutate_message is_newer_than r.0 r.1 tick index ≡ r)
  ack_mutate_message-mutation_tick c b tick index info h =
      let acked : ack_mutate_message is_newer_than c b tick index ≡ (
        record c {
          mutations = erase index c.mutations;
          mutation_ticks = ack_entities is_newer_than tick info.tick info.entities c.mutation_ticks;
        },
        record b { entities = info.entities ∷ b.entities },
      ) =
        unfold ack_mutate_message in rw (h, ack_mutate_message) refl in
      let gone : lookup index (erase index c.mutations) ≡ none =
        ground (arith, lookup-erase index index c.mutations) in
      rw acked (
        λ e.
            unfold mutation_tick in
            lookup-ack_entities tick info.tick info.entities c.mutation_ticks e,
        λ i. lookup-erase index i c.mutations,
        unfold ack_mutate_message in rw (gone, ack_mutate_message) refl,
      )

-- The messages of one client have different indices, as the keys of a map do.
unfoldable pub IsMap : {V : Type 0} → List (ℕ × V) → Type 0
IsMap [] = Unit
IsMap ((k, v) ∷ m) = (lookup k m ≡ none) × IsMap m

lookup-keep_newer :
    (min_timestamp : ℕ) (m : List (ℕ × MutateInfo)) (pool : List (List ℕ)) (i : ℕ)
    → IsMap m
    → lookup i (keep_newer min_timestamp m pool).0 ≡ (elim (lookup i m) [
      | none ↦ none
      | some info ↦ if ltb info.timestamp min_timestamp then none else some info
    ])
unfolding IsMap keep_newer lookup
lookup-keep_newer min_timestamp [] pool i h = refl
lookup-keep_newer min_timestamp ((k, info) ∷ m) pool i h = ground (
  arith,
  lookup-keep_newer min_timestamp m pool i h.1,
  lookup-keep_newer min_timestamp m (info.entities ∷ pool) i h.1,
)

length-keep_newer :
    (min_timestamp : ℕ) (m : List (ℕ × MutateInfo)) (pool : List (List ℕ))
    → let r = keep_newer min_timestamp m pool in length r.0 + length r.1 ≡ length m + length pool
unfolding keep_newer
length-keep_newer min_timestamp [] pool = refl
length-keep_newer min_timestamp ((k, info) ∷ m) pool = ground (
  arith,
  length-keep_newer min_timestamp m pool,
  length-keep_newer min_timestamp m (info.entities ∷ pool),
)

-- The cleanup drops exactly the messages whose timestamp is before the limit, and each dropped
-- message's buffer goes to the pool.
pub cleanup_older_mutations_lem :
    (c : ReplicatedClient) (b : ClientBuffers) (min_timestamp : ℕ)
    → IsMap c.mutations
    → let r = cleanup_older_mutations c b min_timestamp in
      ((i : ℕ)
        → lookup i r.0.mutations ≡ (elim (lookup i c.mutations) [
          | none ↦ none
          | some info ↦ if ltb info.timestamp min_timestamp then none else some info
        ]))
      × (length r.0.mutations + length r.1.entities ≡ length c.mutations + length b.entities)
unfolding cleanup_older_mutations
cleanup_older_mutations_lem c b min_timestamp h = (
  λ i. lookup-keep_newer min_timestamp c.mutations b.entities i h,
  length-keep_newer min_timestamp c.mutations b.entities,
)
