-- ===== src/Receive/Steps.antt =====
-- client.rs: the handlers of a message as actions on a state and a cursor, and `apply_array`.
use bevy_mod_replication.Common.{ℕ, zero, suc, ◌+◌, [], ◌∷◌, length, Outcome, ok, panic}
use bevy_mod_replication.Backend.Server.{Bytes}
use bevy_mod_replication.Wire.{Decoded, value, error, panicked, Reader, Wire}

-- How an action ends: a result and the bytes that are left, an error with the state as it is then,
-- a panic, or, where a loop runs out of fuel, not at all.
pub data Step (S A : Type 0) : Type 0 where
  done : S → A → Bytes → Step S A
  failed : S → Step S A
  panicked_at : Step S A
  unfinished : Step S A

abbrev pub Action : Type 0 → Type 0 → Type 0
Action S A = S → Bytes → Step S A

-- An action that ends with a result or a panic.
abbrev pub after : {S A : Type 0} → Outcome S → A → Bytes → Step S A
after (ok t) a rest = done t a rest
after panic a rest = panicked_at

pub data ArrayKind : Type 0 where
  sized dynamic : ArrayKind

-- What follows a step: nothing after an error or a panic.
abbrev pub resume : {S A B : Type 0} → Step S A → (A → Action S B) → Step S B
resume (done t a rest) f = f a t rest
resume (failed t) f = failed t
resume panicked_at f = panicked_at
resume unfinished f = unfinished

infixl 5 ◌>>=◌
unfoldable pub ◌>>=◌ : {S A B : Type 0} → Action S A → (A → Action S B) → Action S B
◌>>=◌ m f t bytes = resume (m t bytes) f

module _ {S : Type 0} where
  abbrev pub pure : {A : Type 0} → A → Action S A
  pure a t bytes = done t a bytes

  abbrev pub settle : {A : Type 0} → S → Decoded A → Step S A
  settle t (value a rest) = done t a rest
  settle t error = failed t
  settle t panicked = panicked_at

  -- A read with `?`.
  unfoldable pub read : {A : Type 0} → Reader A → Action S A
  read r t bytes = settle t (r bytes)

  -- A change of the state that may panic, with a result.
  unfoldable pub run : {A : Type 0} → (S → Outcome (S × A)) → Action S A
  run f t bytes = elim (f t) [ ok r ↦ done r.0 r.1 bytes | panic ↦ panicked_at ]

  -- The same without a result.
  unfoldable pub change : (S → Outcome S) → Action S (Unit {0})
  change f t bytes = after (f t) tt bytes

  -- `for _ in 0..len`.
  unfoldable pub repeat : ℕ → Action S (Unit {0}) → Action S (Unit {0})
  repeat zero f = pure tt
  repeat (suc n) f = f >>= λ _. repeat n f

  -- `while cursor.position() < end`, with the number of items so far.
  unfoldable pub until_end : ℕ → ℕ → Action S (Unit {0}) → Action S ℕ
  until_end fuel len f t [] = done t len []
  until_end zero len f t (b ∷ bytes) = unfinished
  until_end (suc fuel) len f t (b ∷ bytes) = (f >>= λ _. until_end fuel (len + 1) f) t (b ∷ bytes)

  -- The loop's fuel is the number of bytes, of which each item takes one at least.
  unfoldable pub apply_array :
      {Component : Type 0} → Wire Component → ArrayKind → Action S (Unit {0}) → Action S ℕ
  unfolding repeat until_end
  apply_array w ArrayKind.sized f = read w.read_varint >>= λ len. repeat len f >>= λ _. pure len
  apply_array w ArrayKind.dynamic f = λ t bytes. until_end (length bytes) 0 f t bytes
