-- ===== src/Clients.antt =====
-- core/replication/replicated_clients.rs: `ReplicatedClient`, what the server keeps of one client,
-- and the mutate messages that the client has not acknowledged. An entity, a client's id, a change
-- tick and a duration are numbers. The list of clients is in `Registry`.
pub mod Acks
pub mod Window
pub mod Registry
pub mod Lifecycle
mod Examples
use bevy_mod_replication.Common.{
  ℕ, ◌+◌, ◌%◌, Bool, true, false, Option, none, some, List, [], ◌∷◌, ◌++◌, ltb, if◌then◌else◌,
}
use bevy_mod_replication.Common.Maps.{lookup, insert, erase}
use bevy_mod_replication.Tick.{RepliconTick}
use bevy_mod_replication.Visibility.{
  VisibilityPolicy, ClientVisibility, new as visibility_new, clear as visibility_clear,
  remove_despawned as visibility_remove_despawned, drain_lost,
}

pub record MutateInfo : Type 0 where
  pub tick : ℕ
  pub timestamp : ℕ
  pub entities : List ℕ

pub record ReplicatedClient : Type 0 where
  pub id : ℕ
  pub mutation_ticks : List (ℕ × ℕ)
  pub visibility : ClientVisibility
  pub update_tick : RepliconTick
  pub mutations : List (ℕ × MutateInfo)
  pub next_mutate_index : ℕ

-- The pools are lists with the end of the `Vec` first.
pub record ClientBuffers : Type 0 where
  pub clients : List ReplicatedClient
  pub entities : List (List ℕ)

unfoldable pub new : ℕ → VisibilityPolicy → ReplicatedClient
new id policy = record {
  id = id;
  mutation_ticks = [];
  visibility = visibility_new policy;
  update_tick = 0;
  mutations = [];
  next_mutate_index = 0;
}

unfoldable pub set_update_tick : ReplicatedClient → RepliconTick → ReplicatedClient
set_update_tick c tick = record c { update_tick = tick }

-- The drained entities come with the new state.
unfoldable pub entities_of : List (ℕ × MutateInfo) → List (List ℕ)
entities_of [] = []
entities_of ((_, info) ∷ rest) = info.entities ∷ entities_of rest

unfoldable pub drain_entities : ReplicatedClient → List (List ℕ) × ReplicatedClient
unfolding entities_of
drain_entities c = (entities_of c.mutations, record c { mutations = [] })

unfoldable pub reset : ReplicatedClient → ℕ → ReplicatedClient
reset c id = record {
  id = id;
  mutation_ticks = [];
  visibility = visibility_clear c.visibility;
  update_tick = c.update_tick;
  mutations = [];
  next_mutate_index = 0;
}

-- `client_buffers.entities.pop()`: what is left of the pool.
unfoldable pub pop_entities : ClientBuffers → ClientBuffers
pop_entities b = elim b.entities [ [] ↦ b | _ ∷ rest ↦ record b { entities = rest } ]

unfoldable pub register_mutate_message :
    ReplicatedClient → ClientBuffers → ℕ → ℕ → ReplicatedClient × ClientBuffers × ℕ
unfolding pop_entities
register_mutate_message c b tick timestamp =
    let mutate_index = c.next_mutate_index in
    let info : MutateInfo = record { tick = tick; timestamp = timestamp; entities = [] } in
    (
      record c {
        next_mutate_index = (mutate_index + 1) % 65536;
        mutations = insert mutate_index info c.mutations;
      },
      pop_entities b,
      mutate_index,
    )

-- A write through the reference to the entities that `register_mutate_message` returns.
unfoldable pub push_entity : ReplicatedClient → ℕ → ℕ → ReplicatedClient
push_entity c mutate_index entity = elim (lookup mutate_index c.mutations) [
  | none ↦ c
  | some info ↦ record c {
    mutations =
        insert mutate_index (record info { entities = info.entities ++ (entity ∷ []) }) c.mutations;
  }
]

unfoldable pub set_mutation_tick : ReplicatedClient → ℕ → ℕ → ReplicatedClient
set_mutation_tick c entity tick = record c { mutation_ticks = insert entity tick c.mutation_ticks }

unfoldable pub mutation_tick : ReplicatedClient → ℕ → Option ℕ
mutation_tick c entity = lookup entity c.mutation_ticks

-- `Tick::is_newer_than` of the engine: the tick, the other tick, and the current one.
module _ (is_newer_than : ℕ → ℕ → ℕ → Bool) where
  unfoldable pub ack_entities : ℕ → ℕ → List ℕ → List (ℕ × ℕ) → List (ℕ × ℕ)
  ack_entities tick message_tick [] ticks = ticks
  ack_entities tick message_tick (entity ∷ rest) ticks =
      ack_entities tick message_tick rest (elim (lookup entity ticks) [
        | none ↦ ticks
        | some last_tick ↦
            if is_newer_than last_tick message_tick tick
            then ticks
            else insert entity message_tick ticks
      ])

  unfoldable pub ack_mutate_message :
      ReplicatedClient → ClientBuffers → ℕ → ℕ → ReplicatedClient × ClientBuffers
  unfolding ack_entities
  ack_mutate_message c b tick mutate_index = elim (lookup mutate_index c.mutations) [
    | none ↦ (c, b)
    | some info ↦ (
      record c {
        mutations = erase mutate_index c.mutations;
        mutation_ticks = ack_entities tick info.tick info.entities c.mutation_ticks;
      },
      record b { entities = info.entities ∷ b.entities },
    )
  ]

unfoldable pub remove_despawned : ReplicatedClient → ℕ → ReplicatedClient
remove_despawned c entity = record c {
  mutation_ticks = erase entity c.mutation_ticks;
  visibility = visibility_remove_despawned c.visibility entity;
}

unfoldable pub forget_ticks : List ℕ → List (ℕ × ℕ) → List (ℕ × ℕ)
forget_ticks [] ticks = ticks
forget_ticks (entity ∷ rest) ticks = forget_ticks rest (erase entity ticks)

-- The iterator run to its end.
unfoldable pub drain_lost_visibility : ReplicatedClient → List ℕ × ReplicatedClient
unfolding forget_ticks
drain_lost_visibility c =
    let r = drain_lost c.visibility in
    (r.0, record c { visibility = r.1; mutation_ticks = forget_ticks r.0 c.mutation_ticks })

unfoldable pub keep_newer :
    ℕ → List (ℕ × MutateInfo) → List (List ℕ) → List (ℕ × MutateInfo) × List (List ℕ)
keep_newer min_timestamp [] pool = ([], pool)
keep_newer min_timestamp ((i, info) ∷ rest) pool =
    let old = ltb info.timestamp min_timestamp in
    let r = keep_newer min_timestamp rest (if old then info.entities ∷ pool else pool) in
    if old then r else ((i, info) ∷ r.0, r.1)

unfoldable pub cleanup_older_mutations :
    ReplicatedClient → ClientBuffers → ℕ → ReplicatedClient × ClientBuffers
unfolding keep_newer
cleanup_older_mutations c b min_timestamp =
    let r = keep_newer min_timestamp c.mutations b.entities in
    (record c { mutations = r.0 }, record b { entities = r.1 })
