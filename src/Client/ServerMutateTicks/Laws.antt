-- ===== src/Client/ServerMutateTicks/Laws.antt =====
-- client/server_mutate_ticks.rs: `confirm` as a change of one tick's counts.
use bevy_mod_replication.Common.{
  ℕ, ◌+◌, ◌-◌, ◌<◌, ◌≤◌, ◌≡◌, ◌≢◌, refl, Bool, true, false, not, ◌||◌, if◌then◌else◌, leb, ◌==◌,
  Option, none, some, List, length, get_elem?, set, ok, debug_assert-true, Returns, arith,
  length-set, get_elem?-set_self, get_elem?-set_ne, get_elem?-lt, Bool-cases, inl, inr, le→ltb,
  lt→ltb, ==→eq, ==_self, tests, ◌∙◌,
}
use native.Mathlib.Decide.{dec_lt}
use bevy_mod_replication.Tick.{RepliconTick, IsTick, tick_gt, sub}
use bevy_mod_replication.Client.ServerMutateTicks.{
  TickMessages, ServerMutateTicks, default, fresh, all_received, confirm_message, new, contains,
  shift, confirm_at, confirm,
}
use bevy_mod_replication.Client.ServerMutateTicks.Deque.{
  length-shift, get_elem?-shift, length-fresh, get_elem?-fresh,
}

-- The deque has an entry for each of 64 ticks, and the tick fits a `u32`.
pub record IsTicks (s : ServerMutateTicks) : Type 0 where
  pub full : length s.ticks ≡ 64
  pub is_tick : IsTick s.last_tick

abbrev or_default : Option TickMessages → TickMessages
or_default (some m) = m
or_default none = default

-- The abstract view: the counts of each tick of the window, and no message for a tick ahead.
unfoldable pub messages_at : ServerMutateTicks → RepliconTick → TickMessages
messages_at s t =
    if tick_gt t s.last_tick then default else or_default (get_elem? s.ticks (sub s.last_tick t))

-- `contains` reads the view, inside the window and ahead of it.
pub contains-messages_at :
    (s : ServerMutateTicks) (t : RepliconTick)
    → IsTicks s
    → sub s.last_tick t < 64
    → contains s t ≡ all_received (messages_at s t)
unfolding contains messages_at all_received
contains-messages_at s t v near =
    let (m, e) = get_elem?-lt s.ticks (sub s.last_tick t) (omega (arith, v.full)) in
    rw (e, contains, messages_at) (ground arith)

abbrev pub bump : TickMessages → ℕ → TickMessages
bump m count = record { messages_count = count; received = m.received + 1 }

-- The counts that the debug assertions of the source allow.
abbrev pub IsExpected : TickMessages → ℕ → Type 0
IsExpected m count =
    (count ≢ 0)
    × ((m.messages_count == 0 || m.messages_count == count) ≡ true)
    × (m.received < count)

pub confirm_message-eq :
    (checks : Bool) (m : TickMessages) (count : ℕ)
    → IsExpected m count
    → confirm_message checks m count ≡ ok (bump m count, all_received (bump m count))
unfolding confirm_message
confirm_message-eq checks m count h =
    let fits : leb (m.received + 1) count ≡ true = ground arith in
    let sent : not (count == 0) ≡ true = ground arith in
    rw (sent, debug_assert-true checks)
      (rw (h.1, debug_assert-true checks) (rw (fits, debug_assert-true checks) refl))

confirm_at-eq :
    (checks : Bool) (ms : List TickMessages) (i count : ℕ) (last : RepliconTick) {m : TickMessages}
    → get_elem? ms i ≡ some m
    → IsExpected m count
    → confirm_at checks ms i count last
      ≡ ok (
        record { ticks = set ms i (bump m count); last_tick = last },
        all_received (bump m count),
      )
unfolding confirm_at
confirm_at-eq checks ms i count last {m} e h =
    rw (e, confirm_at) (rw (confirm_message-eq checks m count h) refl)

-- Inside the window the deque holds the view.
pub holds_messages :
    (s : ServerMutateTicks) (u : RepliconTick)
    → IsTicks s
    → IsTick u
    → sub s.last_tick u < 64
    → get_elem? s.ticks (sub s.last_tick u) ≡ some (messages_at s u)
unfolding messages_at tick_gt
holds_messages s u v q near =
    let (m, e) = get_elem?-lt s.ticks (sub s.last_tick u) (omega (arith, v.full)) in
    let here : tick_gt u s.last_tick ≡ false = unfold sub in ground (arith, v.is_tick) in
    rw here (rw e refl)

module _ (s : ServerMutateTicks) (t : RepliconTick) (v : IsTicks s) (p : IsTick t)
    (newer : tick_gt t s.last_tick ≡ true) where
  -- The deque after room was made for a newer tick.
  room : List TickMessages
  room =
      if leb (length s.ticks) (sub t s.last_tick) then fresh else shift (sub t s.last_tick) s.ticks

  length-room : length room ≡ 64
  unfolding room
  length-room = ground (arith, length-fresh, length-shift (sub t s.last_tick) s.ticks, v.full)

  ahead :
      (u : RepliconTick)
      → IsTick u
      → sub t u < 64
      → sub t u < sub t s.last_tick
      → messages_at s u ≡ default
  unfolding messages_at sub tick_gt
  ahead u q near before = ground (arith, v.is_tick)

  behind :
      (u : RepliconTick)
      → IsTick u
      → sub t u < 64
      → sub t s.last_tick ≤ sub t u
      → sub s.last_tick u ≡ sub t u - sub t s.last_tick
  unfolding sub tick_gt
  behind u q near after = omega (arith, v.is_tick)

  get_elem?-room :
      (u : RepliconTick)
      → IsTick u
      → sub t u < 64
      → get_elem? room (sub t u) ≡ some (messages_at s u)
  unfolding room
  get_elem?-room u q near = elim (Bool-cases (leb (length s.ticks) (sub t s.last_tick))) [
    | inl far ↦
        rw (far, get_elem?-fresh (sub t u) near, ahead u q near (omega (tests, v.full))) refl
    | inr close ↦
        rw (close, get_elem?-shift (sub t s.last_tick) s.ticks (sub t u) (omega (arith, v.full)))
          (elim (dec_lt (sub t u) (sub t s.last_tick)) [
            | yes new ↦ rw (lt→ltb _ _ new, ahead u q near new) refl
            | no old ↦
                rw
                  (
                    le→ltb (sub t u) (sub t s.last_tick) (omega arith),
                    ← behind u q near (omega arith),
                  )
                  (holds_messages s u v q (omega (arith, behind u q near (omega arith))))
          ])
  ]

not_ahead :
    (last u : RepliconTick) → IsTick last → IsTick u → sub last u < 64 → tick_gt u last ≡ false
unfolding tick_gt sub
not_ahead last u p q near = ground arith

sub_injective :
    (last t u : RepliconTick) → IsTick last → IsTick t → IsTick u → sub last t ≡ sub last u → t ≡ u
unfolding sub
sub_injective last t u r p q e = omega arith

-- The counts after an entry of the deque was bumped.
messages_at-set :
    (ms : List TickMessages) (m k : TickMessages) (t u last : RepliconTick)
    → length ms ≡ 64
    → IsTick last
    → IsTick t
    → IsTick u
    → sub last t < 64
    → sub last u < 64
    → get_elem? ms (sub last u) ≡ some k
    → messages_at (record { ticks = set ms (sub last t) m; last_tick = last }) u
      ≡ (if u == t then m else k)
unfolding messages_at
messages_at-set ms m k t u last full r p q near w e =
    rw (not_ahead last u r q w) (elim (Bool-cases (u == t)) [
      | inl same ↦
          let at : u ≡ t = ==→eq u t same in
          rw (same, at, get_elem?-set_self ms (sub last t) m (omega (arith, full))) refl
      | inr other ↦
          rw
            (
              other,
              get_elem?-set_ne ms (sub last t) (sub last u) m
                  (λ z. ground (arith, sub_injective last t u r p q z, ==_self u)),
              e,
            )
            refl
    ])

-- A confirmation once the deque has the tick at its place.
confirm_at-messages_at :
    (checks : Bool) (s : ServerMutateTicks) (ms : List TickMessages) (t u last : RepliconTick)
    (count : ℕ)
    → length ms ≡ 64
    → IsTick last
    → IsTick t
    → IsTick u
    → sub last t < 64
    → sub last u < 64
    → get_elem? ms (sub last t) ≡ some (messages_at s t)
    → get_elem? ms (sub last u) ≡ some (messages_at s u)
    → IsExpected (messages_at s t) count
    → Returns (confirm_at checks ms (sub last t) count last) λ r.
      IsTicks r.0
      × (r.0.last_tick ≡ last)
      × (messages_at r.0 u ≡ (if u == t then bump (messages_at s t) count else messages_at s u))
      × (r.1 ≡ all_received (bump (messages_at s t) count))
confirm_at-messages_at checks s ms t u last count full r p q near w e f h =
    rw (confirm_at-eq checks ms (sub last t) count last e h) (
      record { full = length-set ms (sub last t) _ ∙ full; is_tick = r },
      refl,
      messages_at-set ms (bump (messages_at s t) count) (messages_at s u) t u last full r p q near w
          f,
      refl,
    )

-- A confirmation of a tick that is newer than the last one or at most 63 behind it, with a count
-- that the debug assertions allow, panics in no build. It adds one received message to that tick
-- and leaves the counts of the other 63 ticks of the window as they were, those of the ticks that
-- were skipped empty; it returns whether all messages of the tick have arrived.
pub confirm-messages_at :
    (checks : Bool) (s : ServerMutateTicks) (t u : RepliconTick) (count : ℕ)
    → IsTicks s
    → IsTick t
    → IsTick u
    → (tick_gt t s.last_tick ≡ false → sub s.last_tick t < 64)
    → sub (if tick_gt t s.last_tick then t else s.last_tick) u < 64
    → IsExpected (messages_at s t) count
    → Returns (confirm checks s t count) λ r.
      IsTicks r.0
      × (r.0.last_tick ≡ (if tick_gt t s.last_tick then t else s.last_tick))
      × (messages_at r.0 u ≡ (if u == t then bump (messages_at s t) count else messages_at s u))
      × (r.1 ≡ all_received (bump (messages_at s t) count))
unfolding confirm
confirm-messages_at checks s t u count v p q near w h = elim (Bool-cases (tick_gt t s.last_tick)) [
  | inl newer ↦
      let w' : sub t u < 64 = rw newer at w in
      let now : sub t t ≡ 0 = unfold sub in omega arith in
      rw newer (
        rw (← now) (
          unfold room in
          confirm_at-messages_at checks s (room s t v p newer) t u t count
            (length-room s t v p newer) p p q (omega (arith, now)) w'
            (get_elem?-room s t v p newer t p (omega (arith, now)))
            (get_elem?-room s t v p newer u q w') h))
  | inr older ↦
      let w' : sub s.last_tick u < 64 = rw older at w in
      rw (older, v.full, lt→ltb (sub s.last_tick t) 64 (near older))
        (confirm_at-messages_at checks s s.ticks t u s.last_tick count v.full v.is_tick p q
          (near older) w' (holds_messages s t v p (near older)) (holds_messages s u v q w') h)
]
