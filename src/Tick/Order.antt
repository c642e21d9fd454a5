-- ===== src/Tick/Order.antt =====
-- core/replicon_tick.rs: what the wrapping order promises inside a window of half the range.
use bevy_mod_replication.Common.{ℕ, ◌<◌, ◌≡◌, true, false, arith, ltb, leb, ◌==◌, if◌then◌else◌}
use bevy_mod_replication.Tick.{RepliconTick, IsTick, u32_mod, sub, add, tick_lt, tick_le, tick_gt}

-- The order in terms of the distance.
pub tick_gt-sub :
    (a b : RepliconTick) → tick_gt a b ≡ (if sub a b == 0 then false else leb (sub a b) 2147483647)
unfolding tick_gt sub
tick_gt-sub a b = ground arith

pub tick_lt-sub : (a b : RepliconTick) → tick_lt a b ≡ ltb 2147483647 (sub a b)
unfolding tick_lt sub
tick_lt-sub a b = ground arith

pub tick_le-sub :
    (a b : RepliconTick) → tick_le a b ≡ (if sub a b == 0 then true else ltb 2147483647 (sub a b))
unfolding tick_le sub
tick_le-sub a b = ground arith

-- `add` and `sub` are inverse, and agree with the order: n further, up to half the range, is later.
pub sub-add : (a : RepliconTick) (n : ℕ) → IsTick a → n < u32_mod → sub (add a n) a ≡ n
unfolding sub add
sub-add a n h k = omega arith

pub add-sub : (a b : RepliconTick) → IsTick a → IsTick b → add b (sub a b) ≡ a
unfolding sub add
add-sub a b h k = omega arith

pub sub-lt : (a b : RepliconTick) → sub a b < u32_mod
unfolding sub
sub-lt a b = omega arith

-- Ticks that lie n and m after a base, each less than 2 ^ 31, compare as n and m do, also where they
-- wrap around.
pub tick_lt_window :
    (base : RepliconTick) (n m : ℕ)
    → IsTick base
    → n < 2147483648
    → m < 2147483648
    → tick_lt (add base n) (add base m) ≡ ltb n m
unfolding tick_lt add
tick_lt_window base n m h p q = ground arith
