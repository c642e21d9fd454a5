-- ===== src/Tick.antt =====
-- core/replicon_tick.rs: `RepliconTick`, a `u32` that wraps. A tick is its number; that the
-- number fits 32 bits is a hypothesis where a theorem needs it.
pub mod Order
pub mod Span
mod Examples
use Prim.Native.Nat.{Ordering}
use Prim.Native.Nat.Ordering.{lt, eq, gt}
use bevy_mod_replication.Common.{
  ℕ, ◌+◌, ◌-◌, ◌%◌, ◌/◌, ◌^◌, ◌<◌, Bool, true, false, Option, some, if◌then◌else◌, ltb, ◌==◌,
}

abbrev pub RepliconTick : Type 0
RepliconTick = ℕ

-- 2 ^ 32.
abbrev pub u32_mod : ℕ
u32_mod = 4294967296

abbrev pub IsTick : RepliconTick → Type 0
IsTick t = t < u32_mod

unfoldable pub new : ℕ → RepliconTick
new value = value

unfoldable pub get : RepliconTick → ℕ
get t = t

-- `u32::wrapping_sub` and `u32::wrapping_add`.
abbrev pub wrapping_sub : ℕ → ℕ → ℕ
wrapping_sub a b = (a + u32_mod - b) % u32_mod

abbrev pub wrapping_add : ℕ → ℕ → ℕ
wrapping_add a b = (a + b) % u32_mod

unfoldable pub partial_cmp : RepliconTick → RepliconTick → Option Ordering
partial_cmp a b =
    let difference = wrapping_sub a b in
    if difference == 0
    then some eq
    else if ltb ((u32_mod - 1) / 2) difference
    then some lt
    else some gt

-- `tick - tick`, a number; `tick + n` and `tick - n`, ticks.
unfoldable pub sub : RepliconTick → RepliconTick → ℕ
sub a b = wrapping_sub a b

unfoldable pub sub_n : RepliconTick → ℕ → RepliconTick
sub_n a n = wrapping_sub a n

unfoldable pub add : RepliconTick → ℕ → RepliconTick
add a n = wrapping_add a n

-- The operators `<`, `<=` and `>` that `PartialOrd` derives from `partial_cmp`.
abbrev pub is_less : Option Ordering → Bool
is_less (some lt) = true
is_less _ = false

abbrev pub is_less_or_equal : Option Ordering → Bool
is_less_or_equal (some lt) = true
is_less_or_equal (some eq) = true
is_less_or_equal _ = false

abbrev pub is_greater : Option Ordering → Bool
is_greater (some gt) = true
is_greater _ = false

unfoldable pub tick_lt : RepliconTick → RepliconTick → Bool
unfolding partial_cmp
tick_lt a b = is_less (partial_cmp a b)

unfoldable pub tick_le : RepliconTick → RepliconTick → Bool
unfolding partial_cmp
tick_le a b = is_less_or_equal (partial_cmp a b)

unfoldable pub tick_gt : RepliconTick → RepliconTick → Bool
unfolding partial_cmp
tick_gt a b = is_greater (partial_cmp a b)
