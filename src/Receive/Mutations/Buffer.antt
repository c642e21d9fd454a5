-- ===== src/Receive/Mutations/Buffer.antt =====
-- client.rs: `BufferedMutations::insert` keeps the buffer in descending order of the messages' ticks.
-- Ticks wrap, so the order holds for ticks within half the range after a base.
use bevy_mod_replication.Common.{
  ℕ, suc, ◌<◌, ◌≤◌, ◌≡◌, subst, Bool, false, List, [], ◌∷◌, ◌++◌, take, drop, ltb, All, arith,
  Bool-cases, inl, inr, le→ltb, if◌then◌else◌,
}
use bevy_mod_replication.Tick.{RepliconTick, IsTick, tick_lt, sub, add}
use bevy_mod_replication.Tick.Order.{add-sub, tick_lt_window}
use bevy_mod_replication.Receive.Mutations.{BufferedMutate, insert}

-- The number of the first elements that pass the test.
unfoldable pub leading : {A : Type 0} → (A → Bool) → List A → ℕ
leading p [] = 0
leading p (a ∷ as_) = if p a then suc (leading p as_) else 0

-- The test holds for some first elements and for none after them.
unfoldable pub IsPartitioned : {A : Type 0} → (A → Bool) → List A → Type 0
IsPartitioned p [] = Unit
IsPartitioned p (a ∷ as_) = if p a then IsPartitioned p as_ else All (λ b. p b ≡ false) as_

-- The standard library's `partition_point`, on a list that is partitioned.
abbrev pub IsPartitionPoint : ((BufferedMutate → Bool) → List BufferedMutate → ℕ) → Type 0
IsPartitionPoint partition_point =
    (p : BufferedMutate → Bool) (ms : List BufferedMutate)
    → IsPartitioned p ms
    → partition_point p ms ≡ leading p ms

-- How far after the base a message's tick is.
abbrev pub age : RepliconTick → BufferedMutate → ℕ
age base m = sub m.message_tick base

-- Each message's tick is within half the range after the base, and at least that of the next one.
unfoldable pub IsDescending : RepliconTick → List BufferedMutate → Type 0
IsDescending base [] = Unit
IsDescending base (m ∷ ms) =
    IsTick m.message_tick
    × (age base m < 2147483648)
    × All (λ n. age base n ≤ age base m) ms
    × IsDescending base ms

tick_lt-age :
    (base a b : RepliconTick)
    → IsTick base
    → IsTick a
    → IsTick b
    → sub a base < 2147483648
    → sub b base < 2147483648
    → tick_lt a b ≡ ltb (sub a base) (sub b base)
tick_lt-age base a b h p q r s =
    subst (λ x. tick_lt x b ≡ ltb (sub a base) (sub b base)) (add-sub a base p h)
      (subst (λ y. tick_lt (add base (sub a base)) y ≡ ltb (sub a base) (sub b base))
        (add-sub b base q h) (tick_lt_window base (sub a base) (sub b base) h r s))

ticks :
    (base : RepliconTick) (ms : List BufferedMutate)
    → IsDescending base ms
    → All (λ n. IsTick n.message_tick × (age base n < 2147483648)) ms
unfolding IsDescending
ticks base [] h = tt
ticks base (m ∷ ms) h = ((h.0, h.1), ticks base ms h.3)

below :
    (base : RepliconTick) (x y : ℕ) (ms : List BufferedMutate)
    → x ≤ y
    → All (λ n. age base n ≤ x) ms
    → All (λ n. age base n ≤ y) ms
below base x y [] l h = tt
below base x y (m ∷ ms) l h = (omega (arith, l, h.0), below base x y ms l h.1)

module _ (base : RepliconTick) (m : BufferedMutate) (origin : IsTick base)
    (tick : IsTick m.message_tick) (young : age base m < 2147483648) where
  abbrev later : BufferedMutate → Bool
  later other = tick_lt m.message_tick other.message_tick

  none_later :
      (x : ℕ) (ms : List BufferedMutate)
      → x ≤ age base m
      → All (λ n. age base n ≤ x) ms
      → All (λ n. IsTick n.message_tick × (age base n < 2147483648)) ms
      → All (λ n. later n ≡ false) ms
  none_later x [] l h k = tt
  none_later x (n ∷ ms) l h k = (
    rw (tick_lt-age base m.message_tick n.message_tick origin tick k.0.0 young k.0.1)
        (le→ltb _ _ (omega (arith, l, h.0))),
    none_later x ms l h.1 k.1,
  )

  descending-IsPartitioned :
      (ms : List BufferedMutate) → IsDescending base ms → IsPartitioned later ms
  unfolding IsDescending IsPartitioned
  descending-IsPartitioned [] h = tt
  descending-IsPartitioned (n ∷ ms) h =
      let e = tick_lt-age base m.message_tick n.message_tick origin tick h.0 young h.1 in
      elim (Bool-cases (later n)) [
        | inl yes_later ↦ rw yes_later (descending-IsPartitioned ms h.3)
        | inr not_later ↦
            rw not_later
              (none_later (age base n) ms (ground (arith, e, not_later)) h.2 (ticks base ms h.3))
      ]

  -- The list with the message after those that are later.
  abbrev placed : List BufferedMutate → List BufferedMutate
  placed ms = take (leading later ms) ms ++ (m ∷ drop (leading later ms) ms)

  placed-below :
      (x : ℕ) (ms : List BufferedMutate)
      → age base m ≤ x
      → All (λ n. age base n ≤ x) ms
      → All (λ n. age base n ≤ x) (placed ms)
  unfolding leading
  placed-below x [] l h = (l, tt)
  placed-below x (n ∷ ms) l h = elim (Bool-cases (later n)) [
    | inl yes_later ↦ rw yes_later (h.0, placed-below x ms l h.1)
    | inr not_later ↦ rw not_later (l, h)
  ]

  placed-IsDescending :
      (ms : List BufferedMutate) → IsDescending base ms → IsDescending base (placed ms)
  unfolding leading IsDescending
  placed-IsDescending [] h = (tick, young, tt, tt)
  placed-IsDescending (n ∷ ms) h =
      let e = tick_lt-age base m.message_tick n.message_tick origin tick h.0 young h.1 in
      elim (Bool-cases (later n)) [
        | inl yes_later ↦ rw yes_later (
          h.0,
          h.1,
          placed-below (age base n) ms (ground (arith, e, yes_later)) h.2,
          placed-IsDescending ms h.3,
        )
        | inr not_later ↦
            let le : age base n ≤ age base m = ground (arith, e, not_later) in
            rw not_later (tick, young, (le, below base (age base n) (age base m) ms le h.2), h)
      ]

-- With a `partition_point` that is right on partitioned lists: a message whose tick is, as all
-- that are buffered, within half the range of ticks after some base, is put in so that the buffer
-- stays in descending order.
pub insert-IsDescending :
    (partition_point : (BufferedMutate → Bool) → List BufferedMutate → ℕ) (base : RepliconTick)
    (ms : List BufferedMutate) (m : BufferedMutate)
    → IsPartitionPoint partition_point
    → IsTick base
    → IsTick m.message_tick
    → age base m < 2147483648
    → IsDescending base ms
    → IsDescending base (insert partition_point ms m)
unfolding insert
insert-IsDescending partition_point base ms m law origin tick young h =
    rw
      (law (λ other. tick_lt m.message_tick other.message_tick) ms
        (descending-IsPartitioned base m origin tick young ms h))
      (placed-IsDescending base m origin tick young ms h)
