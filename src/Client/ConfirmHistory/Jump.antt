-- ===== src/Client/ConfirmHistory/Jump.antt =====
-- client/confirm_history.rs: a tick 64 or more ahead. `set_last_tick` shifts by `wrapping_shl`,
-- which takes the amount modulo 64, so the old mask survives the jump.
use bevy_mod_replication.Common.{◌%◌, ◌<◌, ◌≤◌, ◌≡◌, ◌≢◌, Bool, true, false, Returns, arith}
use bevy_mod_replication.Tick.{RepliconTick, IsTick, tick_gt, sub, sub_n}
use bevy_mod_replication.Client.ConfirmHistory.{ConfirmHistory, contains, confirm}
use bevy_mod_replication.Client.ConfirmHistory.Laws.{
  IsHistory, contains-bit, advanced, shifted, bit-shifted, set_last_tick-eq, tick_le_of_gt,
}

module _ (h : ConfirmHistory) (t : RepliconTick) (v : IsHistory h) (p : IsTick t)
    (newer : tick_gt t h.last_tick ≡ true) (far : 64 ≤ sub t h.last_tick)
    (odd : 0 < sub t h.last_tick % 64) where
  stray : RepliconTick
  stray = sub_n t (sub t h.last_tick % 64)

  sub-stray : sub t stray ≡ sub t h.last_tick % 64
  unfolding stray sub sub_n
  sub-stray = omega (arith, p)

  stray-IsTick : IsTick stray
  unfolding stray sub_n
  stray-IsTick = omega arith

  stray-ne : stray ≢ t
  unfolding stray sub_n
  stray-ne e = omega (arith, p)

  stray_unknown : contains h stray ≡ false
  unfolding stray sub sub_n tick_gt
  stray_unknown = ground (arith, contains-bit h stray v.is_tick stray-IsTick, v.is_tick)

  stray_confirmed : contains (advanced h t) stray ≡ true
  unfolding advanced
  stray_confirmed = ground (
    arith,
    contains-bit (record { mask = shifted h.mask (sub t h.last_tick % 64); last_tick = t }) stray p
        stray-IsTick,
    sub-stray,
    bit-shifted h.mask (sub t h.last_tick % 64) (sub t h.last_tick % 64) (omega arith),
    v.marked,
  )

  -- After a confirmation 64 or more ticks ahead, and not by a multiple of 64, the history reports
  -- a tick that is neither the one confirmed nor one it knew: the tick that lies back by the
  -- jump modulo 64.
  pub confirm_far_ahead :
      (checks : Bool)
      → Returns (confirm checks h t) λ h'.
        (sub_n t (sub t h.last_tick % 64) ≢ t)
        × (contains h (sub_n t (sub t h.last_tick % 64)) ≡ false)
        × (contains h' (sub_n t (sub t h.last_tick % 64)) ≡ true)
  unfolding confirm stray advanced
  confirm_far_ahead checks =
      rw (newer, set_last_tick-eq checks h t (tick_le_of_gt t h.last_tick newer p v.is_tick))
        (stray-ne, stray_unknown, stray_confirmed)
