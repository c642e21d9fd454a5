-- ===== src/Client/ServerMutateTicks.antt =====
-- client/server_mutate_ticks.rs: `ServerMutateTicks`, for each of the last 64 ticks how many mutate
-- messages the server sent and how many arrived. The deque is a list with its front first.
-- Counts are unbounded: a `usize` does not wrap at the number of messages of a tick.
pub mod Deque
pub mod Laws
pub mod Range
mod Examples
use bevy_mod_replication.Common.{
  ℕ, zero, suc, ◌+◌, ◌-◌, ◌%◌, ◌^◌, Bool, true, false, not, ◌&&◌, ◌||◌, if◌then◌else◌, ltb, leb,
  ◌==◌, Option, none, some, List, [], ◌∷◌, length, get_elem?, set, take, drop, replicate, any,
  Outcome, ok, panic, ◌>>=◌, ◌>>◌, debug_assert,
}
use bevy_mod_replication.Common.Bits.{shl, bit_or}
use bevy_mod_replication.Tick.{RepliconTick, u32_mod, tick_lt, tick_le, tick_gt, sub, sub_n}

pub record TickMessages : Type 0 where
  pub messages_count : ℕ
  pub received : ℕ

abbrev pub default : TickMessages
default = record { messages_count = 0; received = 0 }

unfoldable pub all_received : TickMessages → Bool
all_received m = not (m.messages_count == 0) && m.messages_count == m.received

-- `TickMessages::confirm`, with the value that it returns.
unfoldable pub confirm_message : Bool → TickMessages → ℕ → Outcome (TickMessages × Bool)
confirm_message checks m messages_count = do
  debug_assert checks (not (messages_count == 0))
  debug_assert checks (m.messages_count == 0 || m.messages_count == messages_count)
  let m' : TickMessages = record { messages_count = messages_count; received = m.received + 1 }
  debug_assert checks (leb m'.received m'.messages_count)
  ok (m', all_received m')

pub record ServerMutateTicks : Type 0 where
  pub ticks : List TickMessages
  pub last_tick : RepliconTick

-- A deque of `u64::BITS` ticks that nothing was received for.
unfoldable pub fresh : List TickMessages
fresh = replicate 64 default

-- `ServerMutateTicks::default`.
unfoldable pub new : ServerMutateTicks
unfolding fresh
new = record { ticks = fresh; last_tick = 0 }

mask_from : ℕ → ℕ → List TickMessages → ℕ
mask_from i bitmask [] = bitmask
mask_from i bitmask (m ∷ ms) =
    mask_from (i + 1) (if all_received m then bit_or bitmask (shl 1 i) else bitmask) ms

unfoldable pub mask : ServerMutateTicks → ℕ
unfolding mask_from
mask s = mask_from 0 0 s.ticks

unfoldable pub contains : ServerMutateTicks → RepliconTick → Bool
contains s tick =
    if tick_gt tick s.last_tick
    then false
    else elim (get_elem? s.ticks (sub s.last_tick tick)) [ some m ↦ all_received m | none ↦ true ]

-- `VecDeque::range(start..=end)` panics where the range does not fit the deque.
unfoldable pub range : {A : Type 0} → List A → ℕ → ℕ → Outcome (List A)
range xs start end =
    if ltb (end + 1) start || leb (length xs) end
    then panic
    else ok (take (end + 1 - start) (drop start xs))

unfoldable pub contains_any : Bool → ServerMutateTicks → RepliconTick → RepliconTick → Outcome Bool
contains_any checks s start_tick end_tick =
    debug_assert checks (tick_le start_tick end_tick)
    >> (if tick_gt start_tick s.last_tick
        then ok false
        else if tick_le start_tick (sub_n s.last_tick (length s.ticks % u32_mod))
        then ok true
        else let end_tick' = if tick_lt end_tick s.last_tick then end_tick else s.last_tick in
          let end = sub s.last_tick start_tick in
          let start = sub s.last_tick end_tick' in
          range s.ticks start end >>= λ slice. ok (any all_received slice))

-- `pop_back`, and the loop of `ago` rounds that makes room for the newer ticks.
unfoldable pub pop_back : {A : Type 0} → List A → List A
pop_back [] = []
pop_back (x ∷ []) = []
pop_back (x ∷ y ∷ xs) = x ∷ pop_back (y ∷ xs)

unfoldable pub shift : ℕ → List TickMessages → List TickMessages
unfolding pop_back
shift zero ticks = ticks
shift (suc n) ticks = shift n (default ∷ pop_back ticks)

-- `self.ticks[i].confirm(messages_count)`: an index out of range panics.
unfoldable pub confirm_at :
    Bool → List TickMessages → ℕ → ℕ → RepliconTick → Outcome (ServerMutateTicks × Bool)
confirm_at checks ticks i messages_count last_tick = elim (get_elem? ticks i) [
  | none ↦ panic
  | some m ↦ confirm_message checks m messages_count >>= λ r.
      ok (record { ticks = set ticks i r.0; last_tick = last_tick }, r.1)
]

unfoldable pub confirm :
    Bool → ServerMutateTicks → RepliconTick → ℕ → Outcome (ServerMutateTicks × Bool)
confirm checks s tick messages_count =
    let len = length s.ticks in
    if tick_gt tick s.last_tick
    then (let ago = sub tick s.last_tick in
        let ticks = if leb len ago then fresh else shift ago s.ticks in
        confirm_at checks ticks 0 messages_count tick)
    else let ago = sub s.last_tick tick in
      if ltb ago len
      then confirm_at checks s.ticks ago messages_count s.last_tick
      else ok (s, false)
