-- ===== src/Clients/Window.antt =====
-- core/replication/replicated_clients.rs: the indices of the mutate messages in flight.
use bevy_mod_replication.Common.{
  ℕ, ◌+◌, ◌-◌, ◌%◌, ◌<◌, ◌≡◌, refl, false, some, List, [], ◌∷◌, ◌==◌, length, arith, ==_self,
}
use bevy_mod_replication.Common.Maps.{lookup, lookup-insert}
use bevy_mod_replication.Clients.{
  MutateInfo, ReplicatedClient, ClientBuffers, register_mutate_message,
}

-- Messages registered one after the other, each by its tick and its timestamp.
unfoldable pub register_all :
    ReplicatedClient → ClientBuffers → List (ℕ × ℕ) → ReplicatedClient × ClientBuffers
register_all c b [] = (c, b)
register_all c b ((tick, timestamp) ∷ rest) =
    let r = register_mutate_message c b tick timestamp in register_all r.0 r.1 rest

register_all-keeps :
    (c : ReplicatedClient) (b : ClientBuffers) (messages : List (ℕ × ℕ)) (i : ℕ)
    → i < 65536
    → c.next_mutate_index < 65536
    → length messages < (i + 65536 - c.next_mutate_index) % 65536 + 1
    → lookup i (register_all c b messages).0.mutations ≡ lookup i c.mutations
unfolding register_all register_mutate_message
register_all-keeps c b [] i q p h = refl
register_all-keeps c b ((tick, timestamp) ∷ rest) i q p h =
    let r = register_mutate_message c b tick timestamp in
    let other : (c.next_mutate_index == i) ≡ false = ground arith in
    let room : length rest < (i + 65536 - (c.next_mutate_index + 1) % 65536) % 65536 + 1 =
      omega arith in
    let info : MutateInfo = record { tick = tick; timestamp = timestamp; entities = [] } in
    rw
      (
        register_all-keeps r.0 r.1 rest i q (omega arith) room,
        lookup-insert c.next_mutate_index i info c.mutations,
        other,
      )
      refl

-- A message keeps its entry while at most 65,535 further messages are registered, though the index
-- is a `u16` that wraps.
pub register_all-keeps_message :
    (c : ReplicatedClient) (b : ClientBuffers) (tick timestamp : ℕ) (later : List (ℕ × ℕ))
    → c.next_mutate_index < 65536
    → length later < 65536
    → let r = register_mutate_message c b tick timestamp in
      lookup r.2 (register_all r.0 r.1 later).0.mutations
      ≡ some (record { tick = tick; timestamp = timestamp; entities = [] })
unfolding register_mutate_message
register_all-keeps_message c b tick timestamp later p h =
    let r = register_mutate_message c b tick timestamp in
    let info : MutateInfo = record { tick = tick; timestamp = timestamp; entities = [] } in
    rw
      (
        register_all-keeps r.0 r.1 later c.next_mutate_index p (omega arith) (omega arith),
        lookup-insert c.next_mutate_index c.next_mutate_index info c.mutations,
        ==_self c.next_mutate_index,
      )
      refl
