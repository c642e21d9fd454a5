-- ===== src/Clients/Examples.antt =====
-- core/replication/replicated_clients.rs: the theorems at inputs.
use bevy_mod_replication.Common.{
  ℕ, ◌≡◌, refl, Bool, true, none, some, [], ◌∷◌, ltb, ◌==◌, if◌then◌else◌, arith,
}
use bevy_mod_replication.Common.Maps.{lookup, insert, contains}
use bevy_mod_replication.Visibility.{VisibilityPolicy, clear as visibility_clear}
use bevy_mod_replication.Clients.{
  MutateInfo, ReplicatedClient, ClientBuffers, new, register_mutate_message, push_entity,
  ack_mutate_message, mutation_tick, set_mutation_tick,
}
use bevy_mod_replication.Clients.Acks.{raise, ack_mutate_message-mutation_tick}
use bevy_mod_replication.Clients.Window.{register_all, register_all-keeps_message}
use bevy_mod_replication.Clients.Registry.{
  ReplicatedClients, find, get_client, add, remove, IsUnique,
}
use bevy_mod_replication.Clients.Lifecycle.{add-remove-update_tick}

abbrev pool : ClientBuffers
pool = record { clients = []; entities = [] }

-- A newer tick, without the engine's wrap-around.
abbrev newer : ℕ → ℕ → ℕ → Bool
newer tick other now = ltb other tick

abbrev info : MutateInfo
info = record { tick = 5; timestamp = 3; entities = 1 ∷ 2 ∷ [] }

abbrev waiting : ReplicatedClient
waiting = record (new 1 VisibilityPolicy.all) {
  mutation_ticks = (1, 4) ∷ (3, 2) ∷ [];
  mutations = (0, info) ∷ [];
  next_mutate_index = 1;
  update_tick = 8;
}

-- The round: register, fill, acknowledge.
round :
    let r = register_mutate_message (set_mutation_tick (new 1 VisibilityPolicy.all) 9 2) pool 6 0 in
    mutation_tick (ack_mutate_message newer (push_entity r.0 r.2 9) r.1 7 0).0 9 ≡ some 6
unfolding register_mutate_message set_mutation_tick new push_entity ack_mutate_message mutation_tick
    lookup insert
round = refl

ack_mutate_message-mutation_tick_example :
    ((e : ℕ)
      → mutation_tick (ack_mutate_message newer waiting pool 7 0).0 e ≡ (
          if contains e info.entities
          then raise newer 7 5 (mutation_tick waiting e)
          else mutation_tick waiting e))
    × ((i : ℕ)
        → lookup i (ack_mutate_message newer waiting pool 7 0).0.mutations
          ≡ (if 0 == i then none else lookup i waiting.mutations))
    × (ack_mutate_message newer
          (ack_mutate_message newer waiting pool 7 0).0
          (ack_mutate_message newer waiting pool 7 0).1
          7
          0
        ≡ ack_mutate_message newer waiting pool 7 0)
ack_mutate_message-mutation_tick_example =
    ack_mutate_message-mutation_tick newer waiting pool 7 0 info (unfold lookup in refl)

register_all-keeps_message_example :
    lookup
      (register_mutate_message waiting pool 6 4).2
      (register_all
        (register_mutate_message waiting pool 6 4).0
        (register_mutate_message waiting pool 6 4).1
        ((7, 5) ∷ [])).0.mutations
    ≡ some (record { tick = 6; timestamp = 4; entities = [] })
register_all-keeps_message_example =
    register_all-keeps_message waiting pool 6 4 ((7, 5) ∷ []) (omega arith) (omega arith)

abbrev one_client : ReplicatedClients
one_client = record {
  clients = waiting ∷ [];
  policy = VisibilityPolicy.all;
  replicate_after_connect = true;
}

one_client-IsUnique : IsUnique one_client.clients
unfolding IsUnique
one_client-IsUnique = (refl, tt)

add-remove-update_tick_example :
    get_client (add (remove one_client pool 1).0 (remove one_client pool 1).1 2).0 2
    ≡ some (record {
      id = 2;
      mutation_ticks = [];
      visibility = visibility_clear waiting.visibility;
      update_tick = 8;
      mutations = [];
      next_mutate_index = 0;
    })
unfolding new
add-remove-update_tick_example =
    add-remove-update_tick one_client pool 1 2 waiting one_client-IsUnique
      (unfold get_client find in refl) (unfold get_client find in refl)
