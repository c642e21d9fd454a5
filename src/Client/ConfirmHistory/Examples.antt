-- ===== src/Client/ConfirmHistory/Examples.antt =====
-- client/confirm_history.rs: the unit tests of the source, and the theorems at inputs.
use bevy_mod_replication.Common.{
  ◌%◌, ◌≡◌, ◌≢◌, refl, true, false, ◌||◌, ◌==◌, if◌then◌else◌, ok, ◌>>=◌, Returns, arith,
}
use bevy_mod_replication.Common.Bits.{bit}
use bevy_mod_replication.Tick.{tick_lt, tick_le, tick_gt, sub, sub_n}
use bevy_mod_replication.Tick.Span.{any_tick}
use bevy_mod_replication.Client.ConfirmHistory.{
  ConfirmHistory, new, contains, contains_any, set, set_last_tick, confirm,
}
use bevy_mod_replication.Client.ConfirmHistory.Laws.{IsHistory, confirm-contains}
use bevy_mod_replication.Client.ConfirmHistory.Range.{contains_any_full_window}
use bevy_mod_replication.Client.ConfirmHistory.Jump.{confirm_far_ahead}

-- `contains_with_wrapping`.
contains_with_wrapping :
    (contains (new 65) 0 ≡ true)
    × (contains (new 65) 1 ≡ true)
    × (contains (new 65) 2 ≡ false)
    × (contains (new 65) 65 ≡ true)
    × (contains (new 65) 66 ≡ false)
unfolding contains new tick_gt sub
contains_with_wrapping = (refl, refl, refl, refl, refl)

-- `contains_any_with_older`.
contains_any_with_older :
    ((confirm true (new 1) 4294967295 >>= λ h. contains_any true h 0 1) ≡ ok true)
    × ((confirm true (new 1) 4294967295 >>= λ h. contains_any true h 2 3) ≡ ok false)
    × ((confirm true (new 1) 4294967295 >>= λ h. contains_any true h 4294967293 4294967294)
        ≡ ok false)
unfolding confirm contains_any new tick_gt tick_le tick_lt sub sub_n set set_last_tick
contains_any_with_older = (refl, refl, refl)

-- `confirm_with_overflow`.
confirm_with_overflow : confirm true (new 4294967295) 1 ≡ ok (record { mask = 5; last_tick = 1 })
unfolding confirm new tick_gt tick_le sub set set_last_tick
confirm_with_overflow = refl

abbrev recent : ConfirmHistory
recent = record { mask = 5; last_tick = 3 }

recent-IsHistory : IsHistory recent
unfolding bit
recent-IsHistory = record { fits = omega arith; marked = refl; is_tick = omega arith }

confirm-contains_example : Returns (confirm true recent 6) λ h'.
    IsHistory h'
    × (h'.last_tick ≡ (if tick_gt 6 3 then 6 else 3))
    × (contains h' 3 ≡ (3 == 6 || contains recent 3))
confirm-contains_example =
    confirm-contains true recent 6 3 recent-IsHistory (omega arith) (omega arith)
      (λ _. unfold sub in omega arith) (unfold sub tick_gt in omega arith)

abbrev later : ConfirmHistory
later = record { mask = 5; last_tick = 100 }

later-IsHistory : IsHistory later
unfolding bit
later-IsHistory = record { fits = omega arith; marked = refl; is_tick = omega arith }

contains_any_full_window_example :
    (contains_any false later 37 100 ≡ ok false)
    × (any_tick (contains later) 37 (sub 100 37) ≡ true)
contains_any_full_window_example =
    contains_any_full_window false later 37 100 later-IsHistory (omega arith) (omega arith)
      (unfold sub in omega arith) (unfold sub in omega arith) (unfold sub in refl)
      (unfold sub in omega arith)

confirm_far_ahead_example : Returns (confirm true later 170) λ h'.
    (sub_n 170 (sub 170 100 % 64) ≢ 170)
    × (contains later (sub_n 170 (sub 170 100 % 64)) ≡ false)
    × (contains h' (sub_n 170 (sub 170 100 % 64)) ≡ true)
confirm_far_ahead_example =
    confirm_far_ahead later 170 later-IsHistory (omega arith) (unfold tick_gt in refl)
      (unfold sub in omega arith) (unfold sub in omega arith) true
