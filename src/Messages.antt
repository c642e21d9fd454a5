-- ===== src/Messages.antt =====
-- server/replication_messages.rs and its parts: the messages that the server builds for each client
-- in a tick. All data is serialized once into one buffer, and the messages hold ranges of it.
pub mod Slices
pub mod Changes
pub mod Flags
pub mod Update
pub mod Mutate
pub mod Examples
use bevy_mod_replication.Common.{
  ℕ, ◌+◌, ◌-◌, ◌<◌, Bool, true, false, not, List, [], ◌∷◌, ◌++◌, length, take, drop, ltb, ◌==◌,
  if◌then◌else◌, Outcome, ok, panic, ◌>>=◌,
}
use bevy_mod_replication.Backend.Server.{Bytes}
use bevy_mod_replication.Wire.{Wire}
use bevy_mod_replication.Wire.Entities.{serialize_entity}

-- `std::ops::Range<usize>`, with `len` and `is_empty`.
pub record Range : Type 0 where
  pub start : ℕ
  pub end : ℕ

abbrev pub len : Range → ℕ
len r = r.end - r.start

abbrev pub is_empty : Range → Bool
is_empty r = not (ltb r.start r.end)

-- `serialized[range]`, which panics where the range does not fit.
unfoldable pub slice : Bytes → Range → Outcome Bytes
slice serialized r =
    if ltb r.end r.start
    then panic
    else if ltb (length serialized) r.end
    then panic
    else ok (take (r.end - r.start) (drop r.start serialized))

-- The slices one after the other.
unfoldable pub slices : Bytes → List Range → Outcome Bytes
slices serialized [] = ok []
slices serialized (r ∷ rs) =
    slice serialized r >>= λ here. slices serialized rs >>= λ rest. ok (here ++ rest)

-- `SerializedData`: what each of its functions appends, and the range that it returns.
abbrev pub append : Bytes → Bytes → Bytes × Range
append serialized bytes =
    (serialized ++ bytes, record { start = length serialized; end = length (serialized ++ bytes) })

module _ {Component : Type 0} (w : Wire Component) where
  unfoldable pub concat : {A : Type 0} → (A → Bytes) → List A → Bytes
  concat f [] = []
  concat f (a ∷ as_) = f a ++ concat f as_

  abbrev pub mapping_bytes : ℕ × ℕ → Bytes
  mapping_bytes m = serialize_entity w m.0 ++ serialize_entity w m.1

  abbrev pub component_bytes : ℕ × Component → Bytes
  component_bytes c = w.fns_id c.0 ++ w.component c.0 c.1

  unfoldable pub write_mappings : Bytes → List (ℕ × ℕ) → Bytes × Range
  write_mappings serialized mappings = append serialized (concat mapping_bytes mappings)

  unfoldable pub write_fn_ids : Bytes → List ℕ → Bytes × Range
  write_fn_ids serialized fn_ids = append serialized (concat (w.fns_id) fn_ids)

  unfoldable pub write_component : Bytes → ℕ × Component → Bytes × Range
  write_component serialized component = append serialized (component_bytes component)

  unfoldable pub write_entity : Bytes → ℕ → Bytes × Range
  write_entity serialized entity = append serialized (serialize_entity w entity)

  unfoldable pub write_tick : Bytes → ℕ → Bytes × Range
  write_tick serialized tick = append serialized (w.tick tick)
