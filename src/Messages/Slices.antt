-- ===== src/Messages/Slices.antt =====
-- server/replication_messages/serialized_data.rs: ranges of the buffer and the bytes they hold.
use bevy_mod_replication.Common.{
  ◌+◌, ◌-◌, ◌≤◌, ◌≡◌, refl, sym, ap, ◌∙◌, List, [], ◌∷◌, ◌++◌, length, take, drop, ok, arith,
  length-append, take-add, drop-add, take-append, drop-append, drop-append_all, take_all,
  length-take, length-drop, le→ltb,
}
use bevy_mod_replication.Backend.Server.{Bytes}
use bevy_mod_replication.Messages.{Range, len, slice, slices, append}

-- What a range that fits reads.
pub record Holds (s : Bytes) (r : Range) (bytes : Bytes) : Type 0 where
  pub start_le : r.start ≤ r.end
  pub end_le : r.end ≤ length s
  pub reads : take (r.end - r.start) (drop r.start s) ≡ bytes

pub slice-Holds : (s : Bytes) (r : Range) (bytes : Bytes) → Holds s r bytes → slice s r ≡ ok bytes
unfolding slice
slice-Holds s r bytes h =
    rw (le→ltb r.end r.start h.start_le, le→ltb (length s) r.end h.end_le) (ap ok h.reads)

pub len-Holds : (s : Bytes) (r : Range) (bytes : Bytes) → Holds s r bytes → len r ≡ length bytes
len-Holds s r bytes h =
    let room : r.end - r.start ≤ length (drop r.start s) =
      omega (arith, length-drop r.start s, h.end_le) in
    sym (length-take (r.end - r.start) (drop r.start s) room) ∙ ap length h.reads

pub append-Holds : (s bytes : Bytes) → Holds (append s bytes).0 (append s bytes).1 bytes
append-Holds s bytes =
    let total = length-append s bytes in
    let size : length (s ++ bytes) - length s ≡ length bytes = omega (arith, total) in
    record {
      start_le = omega (arith, total);
      end_le = omega arith;
      reads = rw (size, drop-append_all s bytes) (take_all bytes);
    }

-- Data that is appended later leaves what a range holds.
pub grow-Holds :
    (s more : Bytes) (r : Range) (bytes : Bytes) → Holds s r bytes → Holds (s ++ more) r bytes
grow-Holds s more r bytes h =
    let here : r.start ≤ length s = omega (arith, h.start_le, h.end_le) in
    let room : r.end - r.start ≤ length (drop r.start s) =
      omega (arith, length-drop r.start s, h.end_le) in
    record {
      start_le = h.start_le;
      end_le = omega (arith, h.end_le, length-append s more);
      reads =
          rw
            (
              drop-append r.start s more here,
              take-append (r.end - r.start) (drop r.start s) more room,
            )
            h.reads;
    }

-- Two ranges that meet are one range.
pub join-Holds :
    (s : Bytes) (q r : Range) (x y : Bytes)
    → Holds s q x
    → Holds s r y
    → q.end ≡ r.start
    → Holds s (record { start = q.start; end = r.end }) (x ++ y)
join-Holds s q r x y h k e =
    let size : r.end - q.start ≡ (q.end - q.start) + (r.end - r.start) =
      omega (arith, h.start_le, k.start_le) in
    let place : q.start + (q.end - q.start) ≡ r.start = omega (arith, h.start_le) in
    let second : take (r.end - r.start) (drop (q.end - q.start) (drop q.start s)) ≡ y =
      rw (sym (drop-add q.start (q.end - q.start) s), place) k.reads in
    record {
      start_le = omega (arith, h.start_le, k.start_le);
      end_le = k.end_le;
      reads =
          rw (size, take-add (q.end - q.start) (r.end - r.start) (drop q.start s), h.reads, second)
            refl;
    }

-- A list of ranges that together hold some bytes.
unfoldable pub HoldAll : Bytes → List Range → Bytes → Type 0
HoldAll s [] bytes = [] ≡ bytes
HoldAll s (r ∷ rs) bytes =
    (here : Bytes) × (rest : Bytes) × Holds s r here × HoldAll s rs rest × (here ++ rest ≡ bytes)

pub slices-HoldAll :
    (s : Bytes) (rs : List Range) (bytes : Bytes) → HoldAll s rs bytes → slices s rs ≡ ok bytes
unfolding slices HoldAll
slices-HoldAll s [] bytes h = ap ok h
slices-HoldAll s (r ∷ rs) bytes (here, rest, h, k, e) =
    rw (slice-Holds s r here h) (rw (slices-HoldAll s rs rest k) (ap ok e))

pub grow-HoldAll :
    (s more : Bytes) (rs : List Range) (bytes : Bytes)
    → HoldAll s rs bytes
    → HoldAll (s ++ more) rs bytes
unfolding HoldAll
grow-HoldAll s more [] bytes h = h
grow-HoldAll s more (r ∷ rs) bytes (here, rest, h, k, e) =
    (here, rest, grow-Holds s more r here h, grow-HoldAll s more rs rest k, e)
