-- ===== src/Wire/Entities.antt =====
-- core/entity_serde.rs: an entity as two varints, its index with a flag and, where the flag says so,
-- its generation. An entity is the number that `Entity::to_bits` gives.
use bevy_mod_replication.Common.{
  ℕ, ◌+◌, ◌-◌, ◌*◌, ◌/◌, ◌%◌, ◌<◌, ◌≡◌, refl, true, false, ◌++◌, ltb, ◌==◌, if◌then◌else◌, arith,
  append_assoc, sym, subst, length, length-append, Bool-cases, inl, inr, lt→ltb,
}
use bevy_mod_replication.Common.Bits.{bit_or, bit_and, bit_or-add, bit_and-one}
use bevy_mod_replication.Backend.Server.{Bytes}
use bevy_mod_replication.Wire.{value, panicked, Reader, ◌>>=◌, >>=-value, Wire, IsWire}

abbrev u32_mod : ℕ
u32_mod = 4294967296

abbrev pub index : ℕ → ℕ
index entity = entity % u32_mod

abbrev pub generation : ℕ → ℕ
generation entity = entity / u32_mod

-- Generations are not zero and fit 31 bits, so that `Entity::from_bits` takes the number.
abbrev pub IsEntity : ℕ → Type 0
IsEntity entity = (0 < generation entity) × (generation entity < 2147483648)

module _ {Component : Type 0} (w : Wire Component) where
  unfoldable pub serialize_entity : ℕ → Bytes
  serialize_entity entity =
      let flag = ltb 1 (generation entity) in
      let flagged_index = bit_or (index entity * 2) (if flag then 1 else 0) in
      if flag
      then w.varint flagged_index ++ w.varint (generation entity - 1)
      else w.varint flagged_index

  -- `generation << 32 | flagged_index >> 1`; `from_bits` panics at a generation of 0, or past 31 bits.
  unfoldable pub from_parts : ℕ → ℕ → Reader ℕ
  from_parts flagged_index generation' rest =
      let bits = bit_or (generation' * u32_mod) (flagged_index / 2) in
      if ltb 0 (generation bits)
      then if ltb (generation bits) 2147483648 then value bits rest else panicked
      else panicked

  -- A generation of 2 ^ 32 - 1 overflows: it panics under overflow checks, and otherwise wraps to 0,
  -- which `from_bits` refuses.
  unfoldable pub deserialize_entity : Reader ℕ
  unfolding from_parts
  deserialize_entity = w.read_varint >>= λ flagged_index.
      if bit_and flagged_index 1 == 0
      then from_parts flagged_index 1
      else w.read_generation >>= λ g. from_parts flagged_index ((g + 1) % u32_mod)

  module _ (laws : IsWire w) where
    open laws use {varint_read, generation_read, varint_some}

    from_parts-eq :
        (entity flagged_index : ℕ) (rest : Bytes)
        → IsEntity entity
        → flagged_index / 2 ≡ index entity
        → from_parts flagged_index (generation entity) rest ≡ value entity rest
    unfolding from_parts
    from_parts-eq entity flagged_index rest good e =
        let joined : bit_or (generation entity * u32_mod) (flagged_index / 2) ≡ entity =
          omega (arith, bit_or-add 32 (generation entity) (flagged_index / 2), e) in
        rw joined (
          rw (lt→ltb 0 (generation entity) good.0, lt→ltb (generation entity) 2147483648 good.1)
            refl)

    -- An entity, with a generation that is not zero and fits 31 bits, is read back as it is
    -- written, whatever follows it, where varints below 2 ^ 64 are.
    pub deserialize_entity-serialize_entity :
        (entity : ℕ) (rest : Bytes)
        → IsEntity entity
        → deserialize_entity (serialize_entity entity ++ rest) ≡ value entity rest
    unfolding deserialize_entity serialize_entity
    deserialize_entity-serialize_entity entity rest good =
        elim (Bool-cases (ltb 1 (generation entity))) [
          | inl old ↦
              let g = generation entity in
              let flagged : bit_or (index entity * 2) 1 ≡ index entity * 2 + 1 =
                bit_or-add 1 (index entity) 1 (omega arith) in
              let odd : (bit_and (index entity * 2 + 1) 1 == 0) ≡ false =
                rw (bit_and-one (index entity * 2 + 1)) (ground arith) in
              let back : (g - 1 + 1) % u32_mod ≡ g = ground arith in
              rw
                (
                  old,
                  flagged,
                  append_assoc (w.varint (index entity * 2 + 1)) (w.varint (g - 1)) rest,
                )
                (>>=-value _ _
                  (varint_read (index entity * 2 + 1) (w.varint (g - 1) ++ rest) (omega arith))
                  (rw odd (
                    >>=-value _ _ (generation_read (g - 1) rest (omega arith)) (
                      rw back
                        (from_parts-eq entity (index entity * 2 + 1) rest good (omega arith))))))
          | inr first ↦
              let flagged : bit_or (index entity * 2) 0 ≡ index entity * 2 =
                omega (arith, bit_or-add 1 (index entity) 0 (omega arith)) in
              let even : (bit_and (index entity * 2) 1 == 0) ≡ true =
                rw (bit_and-one (index entity * 2)) (ground arith) in
              let one : 1 ≡ generation entity = ground arith in
              rw (first, flagged)
                (>>=-value _ _ (varint_read (index entity * 2) rest (omega arith)) (
                  rw even (
                    subst (λ (g : ℕ). from_parts (index entity * 2) g rest ≡ value entity rest)
                      (sym one) (from_parts-eq entity (index entity * 2) rest good (omega arith)))))
        ]

    pub serialize_entity_some : (entity : ℕ) → 0 < length (serialize_entity entity)
    unfolding serialize_entity
    serialize_entity_some entity =
        let fi = bit_or (index entity * 2) (if ltb 1 (generation entity) then 1 else 0) in
        ground
          (arith, varint_some fi, length-append (w.varint fi) (w.varint (generation entity - 1)))
