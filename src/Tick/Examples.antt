-- ===== src/Tick/Examples.antt =====
-- core/replicon_tick.rs: the tests of the source, and the theorem at an input.
use bevy_mod_replication.Common.{◌≡◌, refl, true, arith}
use bevy_mod_replication.Tick.{tick_lt, tick_gt, add}
use bevy_mod_replication.Tick.Order.{tick_lt_window}

-- The comparison across the wrap-around.
across_wrap : (tick_lt 4294967295 0 ≡ true) × (tick_gt 0 4294967295 ≡ true) × (add 4294967295 1 ≡ 0)
unfolding tick_lt tick_gt add
across_wrap = (refl, refl, refl)

-- At a distance of exactly half the range each of two ticks is less than the other.
half_range : (tick_lt 0 2147483648 ≡ true) × (tick_lt 2147483648 0 ≡ true)
unfolding tick_lt
half_range = (refl, refl)

tick_lt_window_example : tick_lt (add 4294967290 3) (add 4294967290 9) ≡ true
tick_lt_window_example = tick_lt_window 4294967290 3 9 (omega arith) (omega arith) (omega arith)
