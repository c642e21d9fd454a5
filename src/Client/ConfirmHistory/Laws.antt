-- ===== src/Client/ConfirmHistory/Laws.antt =====
-- client/confirm_history.rs: the well-formed histories, and `contains` after `confirm`.
use bevy_mod_replication.Common.{
  ℕ, ◌+◌, ◌-◌, ◌%◌, ◌^◌, ◌<◌, ◌≡◌, refl, Bool, true, false, ◌||◌, if◌then◌else◌, ltb, leb, ◌==◌, ok,
  Returns, arith, Bool-cases, inl, inr, ltb→lt, ap,
}
use bevy_mod_replication.Common.Bits.{
  shr, shl, bit_or, bit, bit-lt, bit-bit_or, bit_and-one, bit-eq-shr, bit-pow, bit-shl, bit-mod,
  bit_or-lt,
}
use native.Mathlib.Nat.{pow-le-pow_right, pow-suc}
use native.Mathlib.Numerals.{add-one}
use bevy_mod_replication.Tick.{RepliconTick, IsTick, u32_mod, tick_le, tick_gt, sub}
use bevy_mod_replication.Client.ConfirmHistory.{
  ConfirmHistory, contains, checked_shl, set, set_last_tick, confirm,
}

-- The mask fits a `u64`, the last tick itself is marked, and the tick fits a `u32`.
pub record IsHistory (h : ConfirmHistory) : Type 0 where
  pub fits : h.mask < 2 ^ 64
  pub marked : bit h.mask 0 ≡ 1
  pub is_tick : IsTick h.last_tick

-- The bits after a shift by `s` with the low bit set, and after one bit is set.
pub shifted : ℕ → ℕ → ℕ
shifted m s = bit_or (shl m s % 2 ^ 64) 1

pub bit-shifted :
    (m s i : ℕ)
    → i < 64
    → bit (shifted m s) i ≡ (if i == 0 then 1 else if ltb i s then 0 else bit m (i - s))
unfolding shifted
bit-shifted m s i h = ground (
  arith,
  bit-bit_or (shl m s % 2 ^ 64) 1 i,
  bit-mod 64 (shl m s) i,
  bit-shl s m i,
  bit-pow 0 i,
  bit-lt m (i - s),
)

bit-marked : (m k i : ℕ) → bit (bit_or m (2 ^ k)) i ≡ (if i == k then 1 else bit m i)
bit-marked m k i = ground (arith, bit-bit_or m (2 ^ k) i, bit-pow k i, bit-lt m i)

-- `contains` in terms of the distance back from the last tick.
pub contains-bit :
    (h : ConfirmHistory) (t : RepliconTick)
    → IsTick h.last_tick
    → IsTick t
    → contains h t ≡ (
        if ltb 2147483648 (sub h.last_tick t)
        then false
        else leb 64 (sub h.last_tick t) || bit h.mask (sub h.last_tick t) == 1)
unfolding contains tick_gt sub
contains-bit h t p q = ground (
  arith,
  bit-eq-shr ((h.last_tick + u32_mod - t) % u32_mod) h.mask,
  bit_and-one (shr h.mask ((h.last_tick + u32_mod - t) % u32_mod)),
)

pub pow_cut : (n : ℕ) → n < 64 → shl 1 n % 2 ^ 64 ≡ 2 ^ n
pow_cut n h = omega (
  arith,
  pow-le-pow_right {n = 2} (omega arith) {i = n + 1} {j = 64} (omega arith),
  pow-suc 2 n,
  ap (λ (t : ℕ). 2 ^ t) (add-one n),
)

set-eq :
    (checks : Bool) (h : ConfirmHistory) (n : ℕ)
    → n < 64
    → set checks h n ≡ ok (record h { mask = bit_or h.mask (2 ^ n) })
unfolding set checked_shl
set-eq true h n p = ground (arith, pow_cut n p)
set-eq false h n p = ground (arith, pow_cut n p)

pub tick_le_of_gt :
    (a b : RepliconTick) → tick_gt a b ≡ true → IsTick a → IsTick b → tick_le b a ≡ true
unfolding tick_gt tick_le
tick_le_of_gt a b h p q = ground arith

pub set_last_tick-eq :
    (checks : Bool) (h : ConfirmHistory) (t : RepliconTick)
    → tick_le h.last_tick t ≡ true
    → set_last_tick checks h t
      ≡ ok (record { mask = shifted h.mask (sub t h.last_tick % 64); last_tick = t })
unfolding set_last_tick shifted
set_last_tick-eq true h t p = ground arith
set_last_tick-eq false h t p = ground arith

-- The two ways a tick enters the history: by a shift of the mask, and by one bit.
unfoldable pub advanced : ConfirmHistory → RepliconTick → ConfirmHistory
advanced h t = record { mask = shifted h.mask (sub t h.last_tick % 64); last_tick = t }

marked_at : ConfirmHistory → ℕ → ConfirmHistory
marked_at h n = record h { mask = bit_or h.mask (2 ^ n) }

advanced-IsHistory : (h : ConfirmHistory) (t : RepliconTick) → IsTick t → IsHistory (advanced h t)
unfolding advanced
advanced-IsHistory h t p = record {
  fits = unfold shifted in bit_or-lt 64 _ 1 (omega arith) (omega arith);
  marked = bit-shifted h.mask (sub t h.last_tick % 64) 0 (omega arith);
  is_tick = p;
}

marked_at-IsHistory :
    (h : ConfirmHistory) (n : ℕ) → n < 64 → IsHistory h → IsHistory (marked_at h n)
unfolding marked_at
marked_at-IsHistory h n l v = record {
  fits = bit_or-lt 64 h.mask (2 ^ n) v.fits (omega (arith, pow_cut n l));
  marked = ground (arith, bit-marked h.mask n 0, v.marked);
  is_tick = v.is_tick;
}

contains-advanced :
    (h : ConfirmHistory) (t u : RepliconTick)
    → IsHistory h
    → IsTick t
    → IsTick u
    → tick_gt t h.last_tick ≡ true
    → sub t h.last_tick < 64
    → sub t u < 64
    → contains (advanced h t) u ≡ (u == t || contains h u)
unfolding advanced sub tick_gt
contains-advanced h t u v p q newer near w = ground (
  arith,
  contains-bit (record { mask = shifted h.mask (sub t h.last_tick % 64); last_tick = t }) u p q,
  contains-bit h u v.is_tick q,
  bit-shifted h.mask (sub t h.last_tick % 64) (sub t u) w,
)

contains-marked_at :
    (h : ConfirmHistory) (t u : RepliconTick)
    → IsHistory h
    → IsTick t
    → IsTick u
    → sub h.last_tick t < 64
    → sub h.last_tick u < 64
    → contains (marked_at h (sub h.last_tick t)) u ≡ (u == t || contains h u)
unfolding marked_at sub
contains-marked_at h t u v p q near w = ground (
  arith,
  contains-bit (record h { mask = bit_or h.mask (2 ^ sub h.last_tick t) }) u v.is_tick q,
  contains-bit h u v.is_tick q,
  bit-marked h.mask (sub h.last_tick t) (sub h.last_tick u),
)

-- A confirmation of a tick that is not 64 or more ahead panics in no build and keeps the history
-- well formed. The last tick is the newer of the two, and of the 64 ticks up to it the history
-- contains exactly the confirmed one and those that it contained before.
pub confirm-contains :
    (checks : Bool) (h : ConfirmHistory) (t u : RepliconTick)
    → IsHistory h
    → IsTick t
    → IsTick u
    → (tick_gt t h.last_tick ≡ true → sub t h.last_tick < 64)
    → sub (if tick_gt t h.last_tick then t else h.last_tick) u < 64
    → Returns (confirm checks h t) λ h'.
      IsHistory h'
      × (h'.last_tick ≡ (if tick_gt t h.last_tick then t else h.last_tick))
      × (contains h' u ≡ (u == t || contains h u))
unfolding confirm
confirm-contains checks h t u v p q near w = elim (Bool-cases (tick_gt t h.last_tick)) [
  | inl newer ↦
      let w' : sub t u < 64 = rw newer at w in
      rw (newer, set_last_tick-eq checks h t (tick_le_of_gt t h.last_tick newer p v.is_tick))
        (unfold advanced in
          (advanced-IsHistory h t p, refl, contains-advanced h t u v p q newer (near newer) w'))
  | inr older ↦
      let w' : sub h.last_tick u < 64 = rw older at w in
      rw older (elim (Bool-cases (ltb (sub h.last_tick t) 64)) [
        | inl recent ↦
            rw (recent, set-eq checks h (sub h.last_tick t) (ltb→lt _ _ recent))
              (unfold marked_at in
                (
                  marked_at-IsHistory h _ (ltb→lt _ _ recent) v,
                  refl,
                  contains-marked_at h t u v p q (ltb→lt _ _ recent) w',
                ))
        | inr old ↦ rw old (v, refl, ground (arith, contains-bit h u v.is_tick q, old))
      ])
]
