-- ===== src/Receive/Mutations/Wrap.antt =====
-- client.rs: the position of the cursor in a build without overflow checks.
use bevy_mod_replication.Common.{
  ℕ, zero, suc, ◌+◌, ◌-◌, ◌<◌, ◌≡◌, refl, false, none, [], ◌∷◌, length, arith,
}
use bevy_mod_replication.Tick.{RepliconTick}
use bevy_mod_replication.Backend.Server.{Bytes}
use bevy_mod_replication.EntityMap.{get_by_server}
use bevy_mod_replication.Wire.{Wire, value, u64_mod}
use bevy_mod_replication.Wire.Entities.{deserialize_entity}
use bevy_mod_replication.Receive.Items.{World, Client}
use bevy_mod_replication.Receive.Steps.{done, unfinished, read, until_end, ◌>>=◌ as bind}
use bevy_mod_replication.Receive.Mutations.{add_u64, skip, apply_found, apply_mutations}

module _ {W Component : Type 0} (w : Wire Component) (e : World W Component) (tick : RepliconTick)
    (t : Client W) (message rest left : Bytes) (entity size : ℕ)
    (named : deserialize_entity w message ≡ value entity rest)
    (sized : w.read_varint rest ≡ value size left)
    (unknown : get_by_server t.entity_map entity ≡ none)
    (wraps : length message - length left + size ≡ u64_mod) where
  back_to_start : apply_mutations w e false tick message t message ≡ done t tt message
  unfolding apply_mutations apply_found skip add_u64 bind read
  back_to_start = rw (named, sized, unknown, wraps) refl

  -- In a build without overflow checks, where a message starts with an entity that the client does not know
  -- and a data size that takes the cursor's position to 2 ^ 64, the position wraps to the
  -- start of the message, and the loop over the message does not end, however many rounds it gets.
  pub until_end_wrapped :
      (fuel len : ℕ)
      → 0 < length message
      → until_end fuel len (apply_mutations w e false tick message) t message ≡ unfinished
  unfolding until_end bind
  until_end_wrapped fuel len some_bytes = again message fuel len some_bytes back_to_start
    where
      again :
          (bytes : Bytes) (fuel' len' : ℕ)
          → 0 < length bytes
          → apply_mutations w e false tick message t bytes ≡ done t tt bytes
          → until_end fuel' len' (apply_mutations w e false tick message) t bytes ≡ unfinished
      again [] fuel' len' l back = absurd (omega (arith, l))
      again (b ∷ bytes) zero len' l back = refl
      again (b ∷ bytes) (suc fuel') len' l back =
          rw back (again (b ∷ bytes) fuel' (len' + 1) l back)
