-- ===== src/Client/ServerMutateTicks/Examples.antt =====
-- client/server_mutate_ticks.rs: tests of the source, and the theorems at inputs.
use bevy_mod_replication.Common.{
  ℕ, ◌≡◌, refl, Bool, true, false, if◌then◌else◌, ◌==◌, Outcome, ok, ◌>>=◌, Returns, arith,
}
use bevy_mod_replication.Tick.{tick_gt, sub}
use bevy_mod_replication.Client.ServerMutateTicks.{
  ServerMutateTicks, all_received, new, mask, confirm_message, shift, confirm_at, confirm,
}
use bevy_mod_replication.Client.ServerMutateTicks.Deque.{length-fresh}
use bevy_mod_replication.Client.ServerMutateTicks.Laws.{
  IsTicks, messages_at, bump, confirm-messages_at,
}

-- What a call returned, and the mask after it.
abbrev seen : Outcome (ServerMutateTicks × Bool) → Outcome (Bool × ℕ)
seen m = m >>= λ r. ok (r.1, mask r.0)

-- `confirm_same`: the second of two messages completes the tick.
confirm_same :
    (seen (confirm true new 1 2) ≡ ok (false, 0))
    × (seen (confirm true new 1 2 >>= λ r. confirm true r.0 1 2) ≡ ok (true, 1))
unfolding confirm confirm_at confirm_message all_received new mask shift tick_gt sub
confirm_same = (refl, refl)

new-IsTicks : IsTicks new
unfolding new
new-IsTicks = record { full = length-fresh; is_tick = omega arith }

confirm-messages_at_example : Returns (confirm true new 5 2) λ r.
    IsTicks r.0
    × (r.0.last_tick ≡ (if tick_gt 5 new.last_tick then 5 else new.last_tick))
    × (messages_at r.0 5 ≡ (if 5 == 5 then bump (messages_at new 5) 2 else messages_at new 5))
    × (r.1 ≡ all_received (bump (messages_at new 5) 2))
confirm-messages_at_example =
    confirm-messages_at true new 5 5 2 new-IsTicks (omega arith) (omega arith)
      (λ older. unfold new tick_gt in cc older) (unfold new tick_gt sub in omega arith)
      (unfold new messages_at tick_gt in (λ e. omega arith, refl, omega arith))
