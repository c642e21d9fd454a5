-- ===== src/Wire.antt =====
-- The encodings that the messages are written and read with. The third-party ones are operations of
-- `Wire`, with the laws of `IsWire` and `IsReader`: variable-length integers (`integer_encoding`), of
-- 64 bits and, for a mutate index, of 16, for a generation, of 32; ticks, function ids and acknowledgments (`bincode`); and the
-- data of components, which user functions of the registry write and read.
-- A cursor is the list of the bytes that are left.
pub mod Entities
pub mod Examples
use bevy_mod_replication.Common.{ℕ, ◌<◌, ◌≤◌, ◌≡◌, refl, ◌++◌, length}
use bevy_mod_replication.Backend.Server.{Bytes}

-- What a read gives: a value and the rest, an error, or a panic.
pub data Decoded (A : Type 0) : Type 0 where
  value : A → Bytes → Decoded A
  error : Decoded A
  panicked : Decoded A

abbrev pub Reader : Type 0 → Type 0
Reader A = Bytes → Decoded A

infixl 5 ◌>>=◌
unfoldable pub ◌>>=◌ : {A B : Type 0} → Reader A → (A → Reader B) → Reader B
◌>>=◌ m f bytes = elim (m bytes) [ value a rest ↦ f a rest | error ↦ error | panicked ↦ panicked ]

-- A step that reads a value goes on with the rest.
pub >>=-value :
    {A B : Type 0} (m : Reader A) (f : A → Reader B) {bytes rest : Bytes} {a : A} {r : Decoded B}
    → m bytes ≡ value a rest
    → f a rest ≡ r
    → (m >>= f) bytes ≡ r
unfolding ◌>>=◌
>>=-value m f h k = rw (h, ◌>>=◌) k

abbrev pub pure : {A : Type 0} → A → Reader A
pure a bytes = value a bytes

pub record Wire (Component : Type 0) : Type 0 where
  pub varint : ℕ → Bytes
  pub read_varint : Reader ℕ
  pub read_index : Reader ℕ
  pub read_generation : Reader ℕ
  pub tick : ℕ → Bytes
  pub read_tick : Reader ℕ
  pub fns_id : ℕ → Bytes
  pub read_fns_id : Reader ℕ
  pub component : ℕ → Component → Bytes
  pub read_component : ℕ → Reader Component
  pub ack : ℕ → Bytes
  pub read_ack : Reader ℕ

-- 2 ^ 64.
abbrev pub u64_mod : ℕ
u64_mod = 18446744073709551616

-- A read leaves no more bytes than there were, and that of a number takes one at least.
pub record IsReader {Component : Type 0} (w : Wire Component) : Type 0 where
  pub varint_less :
      (bytes rest : Bytes) (n : ℕ) → w.read_varint bytes ≡ value n rest → length rest < length bytes
  pub index_less :
      (bytes rest : Bytes) (n : ℕ) → w.read_index bytes ≡ value n rest → length rest < length bytes
  pub generation_less :
      (bytes rest : Bytes) (n : ℕ)
      → w.read_generation bytes ≡ value n rest
      → length rest < length bytes
  pub tick_less :
      (bytes rest : Bytes) (n : ℕ) → w.read_tick bytes ≡ value n rest → length rest < length bytes
  pub fns_id_less :
      (bytes rest : Bytes) (n : ℕ) → w.read_fns_id bytes ≡ value n rest → length rest < length bytes
  pub component_le :
      (id : ℕ) (bytes rest : Bytes) (c : Component)
      → w.read_component id bytes ≡ value c rest
      → length rest ≤ length bytes
  pub ack_less :
      (bytes rest : Bytes) (n : ℕ) → w.read_ack bytes ≡ value n rest → length rest < length bytes

-- What is read back is what was written, whatever follows it, and a varint has a byte at least.
pub record IsWire {Component : Type 0} (w : Wire Component) : Type 0 where
  pub varint_read :
      (n : ℕ) (rest : Bytes) → n < u64_mod → w.read_varint (w.varint n ++ rest) ≡ value n rest
  pub index_read :
      (n : ℕ) (rest : Bytes) → n < 65536 → w.read_index (w.varint n ++ rest) ≡ value n rest
  pub generation_read :
      (n : ℕ) (rest : Bytes)
      → n < 4294967296
      → w.read_generation (w.varint n ++ rest) ≡ value n rest
  pub varint_some : (n : ℕ) → 0 < length (w.varint n)
  pub tick_read :
      (n : ℕ) (rest : Bytes) → n < 4294967296 → w.read_tick (w.tick n ++ rest) ≡ value n rest
  pub fns_id_read :
      (n : ℕ) (rest : Bytes) → n < u64_mod → w.read_fns_id (w.fns_id n ++ rest) ≡ value n rest
  pub component_read :
      (n : ℕ) (c : Component) (rest : Bytes)
      → w.read_component n (w.component n c ++ rest) ≡ value c rest
  pub ack_read : (n : ℕ) (rest : Bytes) → n < 65536 → w.read_ack (w.ack n ++ rest) ≡ value n rest
