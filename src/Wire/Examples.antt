-- ===== src/Wire/Examples.antt =====
-- An encoding that the laws hold of: each number is one element of the list, as is a component, which
-- is a number.
use mathlib.Core.Bool.{false≢true}
use bevy_mod_replication.Common.{
  ℕ, ◌<◌, ◌≡◌, refl, ap, Bool, true, false, [], ◌∷◌, ◌++◌, length, arith,
}
use bevy_mod_replication.Backend.Server.{Bytes}
use bevy_mod_replication.Wire.{Decoded, value, error, panicked, Reader, Wire, IsWire, IsReader}
use bevy_mod_replication.Wire.Entities.{
  serialize_entity, deserialize_entity, deserialize_entity-serialize_entity,
}

abbrev one : ℕ → Bytes
one n = n ∷ []

abbrev read_one : Reader ℕ
read_one [] = error
read_one (b ∷ bytes) = value b bytes

abbrev pub plain : Wire ℕ
plain = record {
  varint = one;
  read_varint = read_one;
  read_index = read_one;
  read_generation = read_one;
  tick = one;
  read_tick = read_one;
  fns_id = one;
  read_fns_id = read_one;
  component = λ _ c. one c;
  read_component = λ _. read_one;
  ack = one;
  read_ack = read_one;
}

pub plain-IsWire : IsWire plain
plain-IsWire = record {
  varint_read = λ n rest h. refl;
  index_read = λ n rest h. refl;
  generation_read = λ n rest h. refl;
  varint_some = λ n. omega arith;
  tick_read = λ n rest h. refl;
  fns_id_read = λ n rest h. refl;
  component_read = λ id c rest. refl;
  ack_read = λ n rest h. refl;
}

abbrev is_value : Decoded ℕ → Bool
is_value (value a rest) = true
is_value error = false
is_value panicked = false

abbrev left : Decoded ℕ → ℕ
left (value a rest) = length rest
left error = 0
left panicked = 0

read_one_less :
    (bytes rest : Bytes) (n : ℕ) → read_one bytes ≡ value n rest → length rest < length bytes
read_one_less [] rest n h = elim (false≢true (ap is_value h)) [ ]
read_one_less (b ∷ bytes) rest n h = omega (arith, ap left h)

pub plain-IsReader : IsReader plain
plain-IsReader = record {
  varint_less = read_one_less;
  index_less = read_one_less;
  generation_less = read_one_less;
  tick_less = read_one_less;
  fns_id_less = read_one_less;
  component_le = λ id bytes rest c h. let l = read_one_less bytes rest c h in omega (arith, l);
  ack_less = read_one_less;
}

-- Generation 3, index 5.
abbrev old_entity : ℕ
old_entity = 12884901893

deserialize_entity-serialize_entity_example :
    deserialize_entity plain (serialize_entity plain old_entity ++ (7 ∷ []))
    ≡ value old_entity (7 ∷ [])
deserialize_entity-serialize_entity_example =
    deserialize_entity-serialize_entity plain plain-IsWire old_entity (7 ∷ [])
      (omega arith, omega arith)
