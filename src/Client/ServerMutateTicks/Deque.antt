-- ===== src/Client/ServerMutateTicks/Deque.antt =====
-- client/server_mutate_ticks.rs: the deque that `confirm` shifts.
use bevy_mod_replication.Common.{
  ℕ, zero, suc, ◌+◌, ◌-◌, ◌<◌, ◌≡◌, refl, ap, if◌then◌else◌, ltb, lt→ltb, le→ltb, some, List, [],
  ◌∷◌, length, get_elem?, replicate, arith,
}
use native.Mathlib.Decide.{dec_lt}
use native.Mathlib.Nat.{sub-zero}
use bevy_mod_replication.Client.ServerMutateTicks.{TickMessages, default, fresh, pop_back, shift}

pub length-pop_back : {A : Type 0} (x : A) (xs : List A) → length (pop_back (x ∷ xs)) ≡ length xs
unfolding pop_back
length-pop_back x [] = refl
length-pop_back x (y ∷ xs) = ap suc (length-pop_back y xs)

pub get_elem?-pop_back :
    {A : Type 0} (xs : List A) (i : ℕ)
    → i + 1 < length xs
    → get_elem? (pop_back xs) i ≡ get_elem? xs i
unfolding pop_back
get_elem?-pop_back [] i h = absurd (omega arith)
get_elem?-pop_back (x ∷ []) i h = absurd (omega arith)
get_elem?-pop_back (x ∷ y ∷ xs) zero h = refl
get_elem?-pop_back (x ∷ y ∷ xs) (suc i) h = get_elem?-pop_back (y ∷ xs) i (omega arith)

pub length-shift :
    (n : ℕ) (ms : List TickMessages) → 0 < length ms → length (shift n ms) ≡ length ms
unfolding shift
length-shift zero ms h = refl
length-shift (suc n) [] h = absurd (omega arith)
length-shift (suc n) (m ∷ ms) h =
    omega (arith, length-shift n (default ∷ pop_back (m ∷ ms)) (omega arith), length-pop_back m ms)

-- The `n` newest entries are fresh, and the others have moved back by `n`.
pub get_elem?-shift :
    (n : ℕ) (ms : List TickMessages) (i : ℕ)
    → i < length ms
    → get_elem? (shift n ms) i ≡ (if ltb i n then some default else get_elem? ms (i - n))
unfolding shift
get_elem?-shift zero ms i h = rw (sub-zero i) (ground arith)
get_elem?-shift (suc n) [] i h = absurd (omega arith)
get_elem?-shift (suc n) (m ∷ ms) i h =
    let all = length-pop_back m ms in
    rw (get_elem?-shift n (default ∷ pop_back (m ∷ ms)) i (omega arith)) (elim (dec_lt n i) [
      | no newer ↦ elim (dec_lt i n) [
        | yes before ↦ rw (lt→ltb i n before, lt→ltb i (suc n) (omega arith)) refl
        | no at ↦
            let e : i - n ≡ 0 = omega arith in
            rw (le→ltb i n (omega arith), lt→ltb i (suc n) (omega arith), e) refl
      ]
      | yes older ↦
          let e : i - n ≡ suc (i - suc n) = omega arith in
          rw (le→ltb i n (omega arith), le→ltb i (suc n) (omega arith), e)
            (get_elem?-pop_back (m ∷ ms) (i - suc n) (omega arith))
    ])

get_elem?-replicate : {A : Type 0} (n i : ℕ) (a : A) → i < n → get_elem? (replicate n a) i ≡ some a
get_elem?-replicate zero i a h = absurd (omega arith)
get_elem?-replicate (suc n) zero a h = refl
get_elem?-replicate (suc n) (suc i) a h = get_elem?-replicate n i a (omega arith)

pub length-fresh : length fresh ≡ 64
unfolding fresh
length-fresh = refl

pub get_elem?-fresh : (i : ℕ) → i < 64 → get_elem? fresh i ≡ some default
unfolding fresh
get_elem?-fresh i h = get_elem?-replicate 64 i default h
