-- ===== src/Client/ServerMutateTicks/Range.antt =====
-- client/server_mutate_ticks.rs: `contains_any` against `contains` on each tick of the range.
use bevy_mod_replication.Common.{
  ℕ, ◌+◌, ◌-◌, ◌<◌, ◌≤◌, ◌≡◌, ap, ◌∙◌, Bool, true, false, ltb, leb, none, some, List, get_elem?,
  take, drop, any, ok, arith, debug_assert-true, Bool_ext, any-intro, any-elim, get_elem?-take,
  get_elem?-take_ge, get_elem?-drop,
}
use native.Mathlib.Decide.{dec_lt}
use bevy_mod_replication.Tick.{RepliconTick, IsTick, tick_gt, sub, add}
use bevy_mod_replication.Tick.Span.{
  IsSpan, spans, span, cut, any_tick, any_tick-intro, any_tick-elim, add-IsTick,
}
use bevy_mod_replication.Client.ServerMutateTicks.{
  TickMessages, ServerMutateTicks, all_received, contains, range, contains_any,
}
use bevy_mod_replication.Client.ServerMutateTicks.Laws.{
  IsTicks, messages_at, contains-messages_at, holds_messages,
}

-- The slice of the deque that the code looks through.
slice : ServerMutateTicks → RepliconTick → ℕ → List TickMessages
slice s start n = take (n + 1) (drop (sub s.last_tick start - n) s.ticks)

get_elem?-slice :
    (s : ServerMutateTicks) (start : RepliconTick) (n j : ℕ)
    → j < n + 1
    → get_elem? (slice s start n) j ≡ get_elem? s.ticks (sub s.last_tick start - n + j)
unfolding slice
get_elem?-slice s start n j h =
    get_elem?-take (n + 1) _ j h ∙ get_elem?-drop (sub s.last_tick start - n) s.ticks j

module _ (s : ServerMutateTicks) (a e : RepliconTick) (v : IsTicks s) (p : IsTick a)
    (recent : sub s.last_tick a < 64) (c : IsSpan s.last_tick a e) where
  -- The entry of the tick `k` after the start.
  entry :
      (k : ℕ)
      → k ≤ sub s.last_tick a
      → get_elem? s.ticks (sub s.last_tick a - k) ≡ some (messages_at s (add a k))
  entry k l =
      rw (← c.sub_back k l)
        (holds_messages s (add a k) v (add-IsTick a k) (rw (c.sub_back k l) (omega arith)))

  contains-entry :
      (k : ℕ)
      → k ≤ sub s.last_tick a
      → contains s (add a k) ≡ all_received (messages_at s (add a k))
  contains-entry k l = contains-messages_at s (add a k) v (rw (c.sub_back k l) (omega arith))

  contains_ahead : (k : ℕ) → sub s.last_tick a < k → k ≤ sub e a → contains s (add a k) ≡ false
  unfolding contains tick_gt sub
  contains_ahead k l m = ground (arith, v.is_tick, add-IsTick a k, c.sub_ahead k l m)

  -- An entry of the slice is a tick of the range, and the other way round.
  slice_entry :
      (j : ℕ)
      → j < span s.last_tick a e + 1
      → get_elem? (slice s a (span s.last_tick a e)) j
        ≡ some (messages_at s (add a (span s.last_tick a e - j)))
  slice_entry j h =
      let place : sub s.last_tick a - span s.last_tick a e + j
          ≡ sub s.last_tick a - (span s.last_tick a e - j) =
        unfold span in ground arith in
      get_elem?-slice s a (span s.last_tick a e) j h
      ∙ ap (get_elem? s.ticks) place
      ∙ entry (span s.last_tick a e - j) (unfold span in ground arith)

  slice_tick :
      any all_received (slice s a (span s.last_tick a e)) ≡ true
      → any_tick (contains s) a (sub e a) ≡ true
  slice_tick hit =
      let (j, m, g, b) = any-elim all_received (slice s a (span s.last_tick a e)) hit in
      elim (dec_lt j (span s.last_tick a e + 1)) [
        | yes inside ↦
            any_tick-intro (contains s) a (sub e a) (span s.last_tick a e - j) p
              (unfold span in ground arith)
              (contains-entry (span s.last_tick a e - j) (unfold span in ground arith)
                ∙ ground (arith, slice_entry j inside, g, b))
        | no outside ↦
            let nothing : get_elem? (slice s a (span s.last_tick a e)) j ≡ none =
              unfold slice in get_elem?-take_ge (span s.last_tick a e + 1) _ j (omega arith) in
            cc
      ]

  tick_slice :
      any_tick (contains s) a (sub e a) ≡ true
      → any all_received (slice s a (span s.last_tick a e)) ≡ true
  tick_slice hit =
      let (k, l, b) = any_tick-elim (contains s) a (sub e a) p hit in
      elim (dec_lt (sub s.last_tick a) k) [
        | yes beyond ↦ cc (contains_ahead k beyond l)
        | no inside ↦
            let within : k ≤ span s.last_tick a e = unfold span in ground arith in
            let back : span s.last_tick a e - (span s.last_tick a e - k) ≡ k = omega arith in
            any-intro all_received (slice s a (span s.last_tick a e)) (span s.last_tick a e - k)
              (rw back at (slice_entry (span s.last_tick a e - k) (omega arith)))
              (cc (contains-entry k (omega arith)))
      ]

-- For a range that starts at one of the 64 ticks up to the last one and is shorter than half of
-- all ticks, `contains_any` panics in no build and answers whether `contains` holds of some tick
-- of the range.
pub contains_any_lem :
    (checks : Bool) (s : ServerMutateTicks) (start_tick end_tick : RepliconTick)
    → IsTicks s
    → IsTick start_tick
    → IsTick end_tick
    → sub s.last_tick start_tick < 64
    → sub end_tick start_tick < 2147483648
    → contains_any checks s start_tick end_tick
      ≡ ok (any_tick (contains s) start_tick (sub end_tick start_tick))
unfolding contains_any cut range slice
contains_any_lem checks s a e v p q recent half =
    let c = spans s.last_tick a e v.is_tick p q half recent in
    let inside : ltb (sub s.last_tick a + 1) (sub s.last_tick a - span s.last_tick a e) ≡ false =
      ground arith in
    let below : leb 64 (sub s.last_tick a) ≡ false = ground arith in
    let width : sub s.last_tick a + 1 - (sub s.last_tick a - span s.last_tick a e)
        ≡ span s.last_tick a e + 1 =
      unfold span in ground arith in
    rw (c.ordered, c.not_ahead, v.full, c.not_old, debug_assert-true checks)
      (rw (c.offset_end, inside, below, width)
        (ap ok (Bool_ext _ _ (slice_tick s a e v p recent c) (tick_slice s a e v p recent c))))
