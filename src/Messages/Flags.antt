-- ===== src/Messages/Flags.antt =====
-- core/replication/update_message_flags.rs: which sections an update message has. `bitflags` gives
-- the flags that are set in the order of their declaration.
use Prim.Native.Nat.{bit_and, bit_or}
use mathlib.Core.Bool.{false≢true}
use bevy_mod_replication.Common.{
  ℕ, zero, suc, ◌+◌, ◌-◌, ◌^◌, ◌≡◌, refl, Bool, true, false, not, List, [], ◌∷◌, retain, ltb, leb,
  ◌==◌, if◌then◌else◌, ◌||◌, Outcome, ok, panic, ◌>>◌, debug_assert,
}

pub data Section : Type 0 where
  mappings despawns removals changes : Section

abbrev pub flag_bits : Section → ℕ
flag_bits Section.mappings = 1
flag_bits Section.despawns = 2
flag_bits Section.removals = 4
flag_bits Section.changes = 8

unfoldable pub iter_names : ℕ → List Section
iter_names bits =
    retain (λ f. not (bit_and bits (flag_bits f) == 0))
      (Section.mappings ∷ Section.despawns ∷ Section.removals ∷ Section.changes ∷ [])

-- `u8::leading_zeros`, for the lowest `width` bits.
unfoldable pub leading_zeros : ℕ → ℕ → ℕ
leading_zeros zero bits = 0
leading_zeros (suc width) bits = if ltb bits (2 ^ width) then 1 + leading_zeros width bits else 0

-- Without a flag the subtraction overflows: it panics under overflow checks, and otherwise the shift,
-- by 255, is one by 7.
unfoldable pub last : Bool → ℕ → Outcome ℕ
unfolding leading_zeros
last checks bits =
    debug_assert checks (not (bits == 0))
    >> (if leb (leading_zeros 8 bits) 7
        then ok (2 ^ (7 - leading_zeros 8 bits))
        else if checks
        then panic
        else ok (2 ^ 7))

-- The flags of a message, from which of its sections have something.
unfoldable pub flags_of : Bool → Bool → Bool → Bool → ℕ
flags_of with_mappings with_despawns with_removals with_changes =
    let none_set : ℕ = 0 in
    let first = if with_mappings then bit_or none_set 1 else none_set in
    let second = if with_despawns then bit_or first 2 else first in
    let third = if with_removals then bit_or second 4 else second in
    if with_changes then bit_or third 8 else third

abbrev pub is_mappings : Section → Bool
is_mappings Section.mappings = true
is_mappings _ = false

abbrev pub is_changes : Section → Bool
is_changes Section.changes = true
is_changes _ = false

-- Sections of which exactly the last has the last flag; mappings do not come last, and changes do.
abbrev pub Ends : ℕ → List Section → Type 0
Ends l [] = ⊥
Ends l (f ∷ []) = ((flag_bits f == l) ≡ true) × (is_mappings f ≡ false)
Ends l (f ∷ g ∷ fs) = ((flag_bits f == l) ≡ false) × (is_changes f ≡ false) × Ends l (g ∷ fs)

-- What the flags of a message say, where it has more than mappings.
pub flags_of-Ends :
    (checks a b c d : Bool)
    → b || (c || d) ≡ true
    → (l : ℕ) × (last checks (flags_of a b c d) ≡ ok l)
      × Ends l (iter_names (flags_of a b c d))
      × (not (flags_of a b c d == 0) ≡ true)
unfolding last leading_zeros flags_of iter_names
flags_of-Ends true false false false true h = (8, refl, (refl, refl), refl)
flags_of-Ends false false false false true h = (8, refl, (refl, refl), refl)
flags_of-Ends true false false true false h = (4, refl, (refl, refl), refl)
flags_of-Ends false false false true false h = (4, refl, (refl, refl), refl)
flags_of-Ends true false false true true h = (8, refl, (refl, refl, (refl, refl)), refl)
flags_of-Ends false false false true true h = (8, refl, (refl, refl, (refl, refl)), refl)
flags_of-Ends true false true false false h = (2, refl, (refl, refl), refl)
flags_of-Ends false false true false false h = (2, refl, (refl, refl), refl)
flags_of-Ends true false true false true h = (8, refl, (refl, refl, (refl, refl)), refl)
flags_of-Ends false false true false true h = (8, refl, (refl, refl, (refl, refl)), refl)
flags_of-Ends true false true true false h = (4, refl, (refl, refl, (refl, refl)), refl)
flags_of-Ends false false true true false h = (4, refl, (refl, refl, (refl, refl)), refl)
flags_of-Ends true false true true true h =
    (8, refl, (refl, refl, (refl, refl, (refl, refl))), refl)
flags_of-Ends false false true true true h =
    (8, refl, (refl, refl, (refl, refl, (refl, refl))), refl)
flags_of-Ends true true false false true h = (8, refl, (refl, refl, (refl, refl)), refl)
flags_of-Ends false true false false true h = (8, refl, (refl, refl, (refl, refl)), refl)
flags_of-Ends true true false true false h = (4, refl, (refl, refl, (refl, refl)), refl)
flags_of-Ends false true false true false h = (4, refl, (refl, refl, (refl, refl)), refl)
flags_of-Ends true true false true true h =
    (8, refl, (refl, refl, (refl, refl, (refl, refl))), refl)
flags_of-Ends false true false true true h =
    (8, refl, (refl, refl, (refl, refl, (refl, refl))), refl)
flags_of-Ends true true true false false h = (2, refl, (refl, refl, (refl, refl)), refl)
flags_of-Ends false true true false false h = (2, refl, (refl, refl, (refl, refl)), refl)
flags_of-Ends true true true false true h =
    (8, refl, (refl, refl, (refl, refl, (refl, refl))), refl)
flags_of-Ends false true true false true h =
    (8, refl, (refl, refl, (refl, refl, (refl, refl))), refl)
flags_of-Ends true true true true false h =
    (4, refl, (refl, refl, (refl, refl, (refl, refl))), refl)
flags_of-Ends false true true true false h =
    (4, refl, (refl, refl, (refl, refl, (refl, refl))), refl)
flags_of-Ends true true true true true h =
    (8, refl, (refl, refl, (refl, refl, (refl, refl, (refl, refl)))), refl)
flags_of-Ends false true true true true h =
    (8, refl, (refl, refl, (refl, refl, (refl, refl, (refl, refl)))), refl)
flags_of-Ends true true false false false h = elim (false≢true h) [ ]
flags_of-Ends false true false false false h = elim (false≢true h) [ ]
flags_of-Ends true false false false false h = elim (false≢true h) [ ]
flags_of-Ends false false false false false h = elim (false≢true h) [ ]

abbrev pub is_set : ℕ → Section → Bool
is_set bits f = not (bit_and bits (flag_bits f) == 0)

-- The flags that are set are those that were asked for.
pub flags_of-is_set :
    (a b c d : Bool)
    → (is_set (flags_of a b c d) Section.mappings ≡ a)
      × (is_set (flags_of a b c d) Section.despawns ≡ b)
      × (is_set (flags_of a b c d) Section.removals ≡ c)
      × (is_set (flags_of a b c d) Section.changes ≡ d)
unfolding flags_of
flags_of-is_set false false false false = (refl, refl, refl, refl)
flags_of-is_set false false false true = (refl, refl, refl, refl)
flags_of-is_set false false true false = (refl, refl, refl, refl)
flags_of-is_set false false true true = (refl, refl, refl, refl)
flags_of-is_set false true false false = (refl, refl, refl, refl)
flags_of-is_set false true false true = (refl, refl, refl, refl)
flags_of-is_set false true true false = (refl, refl, refl, refl)
flags_of-is_set false true true true = (refl, refl, refl, refl)
flags_of-is_set true false false false = (refl, refl, refl, refl)
flags_of-is_set true false false true = (refl, refl, refl, refl)
flags_of-is_set true false true false = (refl, refl, refl, refl)
flags_of-is_set true false true true = (refl, refl, refl, refl)
flags_of-is_set true true false false = (refl, refl, refl, refl)
flags_of-is_set true true false true = (refl, refl, refl, refl)
flags_of-is_set true true true false = (refl, refl, refl, refl)
flags_of-is_set true true true true = (refl, refl, refl, refl)
