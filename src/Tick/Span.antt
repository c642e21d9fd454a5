-- ===== src/Tick/Span.antt =====
-- Ranges of ticks: `contains_any` of client/confirm_history.rs and of
-- client/server_mutate_ticks.rs cut a range off at the last tick in the same way.
use native.Mathlib.Decide.{dec_lt}
use bevy_mod_replication.Common.{
  ℕ, zero, suc, ◌-◌, ◌<◌, ◌≤◌, ◌≡◌, Bool, true, false, ◌||◌, if◌then◌else◌, arith, min, Bool-cases,
  inl, inr,
}
use bevy_mod_replication.Tick.{RepliconTick, IsTick, tick_lt, tick_le, tick_gt, sub, sub_n, add}

-- Some tick of `start`, ..., `start + n` passes the test.
pub any_tick : (RepliconTick → Bool) → RepliconTick → ℕ → Bool
any_tick p start zero = p start
any_tick p start (suc n) = any_tick p start n || p (add start (suc n))

add_zero : (t : RepliconTick) → IsTick t → add t 0 ≡ t
unfolding add
add_zero t p = omega arith

pub any_tick-intro :
    (p : RepliconTick → Bool) (start : RepliconTick) (n k : ℕ)
    → IsTick start
    → k ≤ n
    → p (add start k) ≡ true
    → any_tick p start n ≡ true
unfolding any_tick
any_tick-intro p start zero zero q l e = rw (add_zero start q) at e
any_tick-intro p start zero (suc k) q l e = absurd (omega arith)
any_tick-intro p start (suc n) k q l e = elim (dec_lt k (suc n)) [
  | yes before ↦ ground (arith, any_tick-intro p start n k q (omega arith) e)
  | no last ↦ let same : k ≡ suc n = omega arith in ground arith
]

pub any_tick-elim :
    (p : RepliconTick → Bool) (start : RepliconTick) (n : ℕ)
    → IsTick start
    → any_tick p start n ≡ true
    → (k : ℕ) × (k ≤ n) × (p (add start k) ≡ true)
unfolding any_tick
any_tick-elim p start zero q e = (0, omega arith, rw (add_zero start q) e)
any_tick-elim p start (suc n) q e = elim (Bool-cases (any_tick p start n)) [
  | inl before ↦ let (k, l, c) = any_tick-elim p start n q before in (k, omega arith, c)
  | inr last ↦ (suc n, omega arith, ground arith)
]

-- The end of a range, cut off at the last tick, and the length up to there.
unfoldable pub cut : RepliconTick → RepliconTick → RepliconTick
cut last e = if tick_lt e last then e else last

unfoldable pub span : RepliconTick → RepliconTick → RepliconTick → ℕ
span last s e = min (sub e s) (sub last s)

-- What the code relies on for a range from `s`, one of the 64 ticks up to the last one, to `e`.
pub record IsSpan (last s e : RepliconTick) : Type 0 where
  pub sub_end : sub (cut last e) s ≡ span last s e
  pub offset_end : sub last (cut last e) ≡ sub last s - span last s e
  pub ordered : tick_le s e ≡ true
  pub not_ahead : tick_gt s last ≡ false
  pub not_old : tick_le s (sub_n last 64) ≡ false
  pub sub_back : (k : ℕ) → k ≤ sub last s → sub last (add s k) ≡ sub last s - k
  pub sub_ahead : (k : ℕ) → sub last s < k → k ≤ sub e s → 2147483648 < sub last (add s k)

module _ (last s e : RepliconTick) (r : IsTick last) (p : IsTick s) (q : IsTick e)
    (half : sub e s < 2147483648) (recent : sub last s < 64) where
  cut-sub : sub (cut last e) s ≡ span last s e
  unfolding cut span tick_lt sub
  cut-sub = ground arith

  sub-cut : sub last (cut last e) ≡ sub last s - span last s e
  unfolding cut span tick_lt sub
  sub-cut = ground arith

  start-le-end : tick_le s e ≡ true
  unfolding tick_le sub
  start-le-end = ground arith

  start-not-ahead : tick_gt s last ≡ false
  unfolding tick_gt sub
  start-not-ahead = ground arith

  start-not-old : tick_le s (sub_n last 64) ≡ false
  unfolding tick_le sub sub_n
  start-not-old = ground arith

  sub-back : (k : ℕ) → k ≤ sub last s → sub last (add s k) ≡ sub last s - k
  unfolding sub add
  sub-back k l = omega arith

  sub-ahead : (k : ℕ) → sub last s < k → k ≤ sub e s → 2147483648 < sub last (add s k)
  unfolding sub add
  sub-ahead k l m = omega arith

  pub spans : IsSpan last s e
  spans = record {
    sub_end = cut-sub;
    offset_end = sub-cut;
    ordered = start-le-end;
    not_ahead = start-not-ahead;
    not_old = start-not-old;
    sub_back = sub-back;
    sub_ahead = sub-ahead;
  }

pub add-IsTick : (s : RepliconTick) (k : ℕ) → IsTick (add s k)
unfolding add
add-IsTick s k = omega arith
