-- ===== src/Client/ConfirmHistory.antt =====
-- client/confirm_history.rs: `ConfirmHistory`, the last received tick of an entity and a 64-bit
-- mask of the ticks before it. `checks` says whether the build has debug assertions and
-- overflow checks (one setting of the profile).
pub mod Laws
pub mod Range
pub mod Jump
mod Examples
use bevy_mod_replication.Common.{
  ℕ, ◌+◌, ◌-◌, ◌*◌, ◌/◌, ◌%◌, ◌^◌, ◌<◌, ◌≤◌, Bool, true, false, not, ◌||◌, if◌then◌else◌, ltb, leb,
  ◌==◌, Outcome, ok, panic, ◌>>=◌, ◌>>◌, debug_assert,
}
use bevy_mod_replication.Common.Bits.{shr, shl, bit_or, bit_and}
use bevy_mod_replication.Tick.{RepliconTick, tick_lt, tick_le, tick_gt, sub, sub_n}

-- `u64::BITS`.
abbrev pub u64_bits : ℕ
u64_bits = 64

pub record ConfirmHistory : Type 0 where
  pub mask : ℕ
  pub last_tick : RepliconTick

unfoldable pub new : RepliconTick → ConfirmHistory
new last_tick = record { mask = 1; last_tick = last_tick }

unfoldable pub contains : ConfirmHistory → RepliconTick → Bool
contains h tick =
    if tick_gt tick h.last_tick
    then false
    else let ago = sub h.last_tick tick in leb u64_bits ago || bit_and (shr h.mask ago) 1 == 1

-- `1 << len` on a `u64`: past the width it panics under overflow checks, and otherwise shifts by
-- the amount modulo the width.
unfoldable pub checked_shl : Bool → ℕ → ℕ → Outcome ℕ
checked_shl checks x n =
    if ltb n u64_bits
    then ok (shl x n % 2 ^ u64_bits)
    else if checks
    then panic
    else ok (shl x (n % u64_bits) % 2 ^ u64_bits)

unfoldable pub contains_any : Bool → ConfirmHistory → RepliconTick → RepliconTick → Outcome Bool
unfolding checked_shl
contains_any checks h start_tick end_tick =
    debug_assert checks (tick_le start_tick end_tick)
    >> (if tick_gt start_tick h.last_tick
        then ok false
        else if tick_le start_tick (sub_n h.last_tick u64_bits)
        then ok true
        else let end = if tick_lt end_tick h.last_tick then end_tick else h.last_tick in
          let len = sub end start_tick + 1 in
          let offset = sub h.last_tick end in
          checked_shl checks 1 len >>= λ ones.
          checked_shl checks (ones - 1) offset >>= λ mask. ok (not (bit_and h.mask mask == 0)))

unfoldable pub set : Bool → ConfirmHistory → ℕ → Outcome ConfirmHistory
unfolding checked_shl
set checks h ago = do
  debug_assert checks (ltb ago u64_bits)
  one ← checked_shl checks 1 ago
  ok (record h { mask = bit_or h.mask one })

-- `wrapping_shl` takes the shift modulo the width in every build.
unfoldable pub set_last_tick : Bool → ConfirmHistory → RepliconTick → Outcome ConfirmHistory
set_last_tick checks h tick = do
  debug_assert checks (tick_le h.last_tick tick)
  let diff = sub tick h.last_tick
  let shifted = shl h.mask (diff % u64_bits) % 2 ^ u64_bits
  ok (record { mask = bit_or shifted 1; last_tick = tick })

unfoldable pub confirm : Bool → ConfirmHistory → RepliconTick → Outcome ConfirmHistory
confirm checks h tick =
    if tick_gt tick h.last_tick
    then set_last_tick checks h tick
    else let ago = sub h.last_tick tick in if ltb ago u64_bits then set checks h ago else ok h
