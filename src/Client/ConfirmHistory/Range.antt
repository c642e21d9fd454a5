-- ===== src/Client/ConfirmHistory/Range.antt =====
-- client/confirm_history.rs: `contains_any` against `contains` on each tick of the range.
use bevy_mod_replication.Common.{
  ℕ, ◌+◌, ◌-◌, ◌%◌, ◌^◌, ◌<◌, ◌≤◌, ◌≡◌, refl, Bool, true, false, not, if◌then◌else◌, ltb, ◌==◌, ok,
  panic, ◌>>=◌, debug_assert-true, ap, ◌∙◌, arith, Bool_ext, ◌⊎◌, ne→==,
}
use bevy_mod_replication.Common.Bits.{
  shl, bit_and, bit, bit-lt, bit-bit_and, bit_and-lt, bit_and-zero, bit-zero, bit-shl, bit-mod,
  bit-ones, some_bit,
}
use bevy_mod_replication.Tick.{RepliconTick, IsTick, sub, add}
use bevy_mod_replication.Tick.Span.{
  IsSpan, spans, span, cut, any_tick, any_tick-intro, any_tick-elim, add-IsTick,
}
use bevy_mod_replication.Client.ConfirmHistory.{ConfirmHistory, contains, checked_shl, contains_any}
use bevy_mod_replication.Client.ConfirmHistory.Laws.{IsHistory, contains-bit, pow_cut}

-- The mask of the range that starts `d` ticks back and is `n` long: bits `d - n` to `d`.
range_mask : ℕ → ℕ → ℕ
range_mask d n = shl (2 ^ (n + 1) - 1) (d - n) % 2 ^ 64

bit-range_mask :
    (d n i : ℕ)
    → i < 64
    → bit (range_mask d n) i
      ≡ (if ltb i (d - n) then 0 else if ltb (i - (d - n)) (n + 1) then 1 else 0)
unfolding range_mask
bit-range_mask d n i l = ground (
  arith,
  bit-mod 64 (shl (2 ^ (n + 1) - 1) (d - n)) i,
  bit-shl (d - n) (2 ^ (n + 1) - 1) i,
  bit-ones (n + 1) (i - (d - n)),
)

checked_shl_lem :
    (checks : Bool) (x n : ℕ) → n < 64 → checked_shl checks x n ≡ ok (shl x n % 2 ^ 64)
unfolding checked_shl
checked_shl_lem checks x n h = ground arith

-- The bits that the code asks for.
asked : ConfirmHistory → RepliconTick → RepliconTick → ℕ
unfolding span
asked h s e = bit_and h.mask (range_mask (sub h.last_tick s) (span h.last_tick s e))

asked-lt : (h : ConfirmHistory) (s e : RepliconTick) → h.mask < 2 ^ 64 → asked h s e < 2 ^ 64
unfolding asked
asked-lt h s e l = bit_and-lt 64 h.mask _ l

module _ (h : ConfirmHistory) (s e : RepliconTick) (v : IsHistory h) (p : IsTick s)
    (recent : sub h.last_tick s < 64) (c : IsSpan h.last_tick s e) where
  -- A bit of the mask in the range is a contained tick of the range, and the other way round.
  bit_tick :
      (i : ℕ)
      → i < 64
      → bit (asked h s e) i ≡ 1
      → (sub h.last_tick s - i ≤ sub e s) × (contains h (add s (sub h.last_tick s - i)) ≡ true)
  unfolding asked span
  bit_tick i l b = ground (
    arith,
    bit-bit_and h.mask (range_mask (sub h.last_tick s) (span h.last_tick s e)) i,
    bit-range_mask (sub h.last_tick s) (span h.last_tick s e) i l,
    bit-lt h.mask i,
    contains-bit h (add s (sub h.last_tick s - i)) v.is_tick (add-IsTick s (sub h.last_tick s - i)),
    c.sub_back (sub h.last_tick s - i),
  )

  tick_bit :
      (k : ℕ)
      → k ≤ sub e s
      → contains h (add s k) ≡ true
      → bit (asked h s e) (sub h.last_tick s - k) ≡ 1
  unfolding asked span
  tick_bit k l hit = ground (
    arith,
    bit-bit_and h.mask (range_mask (sub h.last_tick s) (span h.last_tick s e))
        (sub h.last_tick s - k),
    bit-range_mask (sub h.last_tick s) (span h.last_tick s e) (sub h.last_tick s - k) (omega arith),
    contains-bit h (add s k) v.is_tick (add-IsTick s k),
    c.sub_back k,
    c.sub_ahead k,
  )

  some_marked : not (asked h s e == 0) ≡ true → any_tick (contains h) s (sub e s) ≡ true
  some_marked hit =
      let (i, l, b) =
        some_bit 64 (asked h s e) (asked-lt h s e v.fits) (λ z. ground (arith, hit)) in
      let (m, hit') = bit_tick i l b in
      any_tick-intro (contains h) s (sub e s) (sub h.last_tick s - i) p m hit'

  marked_some : any_tick (contains h) s (sub e s) ≡ true → not (asked h s e == 0) ≡ true
  marked_some hit =
      let (k, l, hit') = any_tick-elim (contains h) s (sub e s) p hit in
      let b = tick_bit k l hit' in
      rw
        (ne→== (asked h s e) 0 (λ z.
          ground
            (arith, ap (λ x. bit x (sub h.last_tick s - k)) z, bit-zero (sub h.last_tick s - k))))
        refl

module _ (checks : Bool) (h : ConfirmHistory) (s e : RepliconTick) (v : IsHistory h) (p : IsTick s)
    (q : IsTick e) (half : sub e s < 2147483648) (recent : sub h.last_tick s < 64) where
  in-IsSpan : IsSpan h.last_tick s e
  in-IsSpan = spans h.last_tick s e v.is_tick p q half recent

  -- The code down to the shift of the mask of ones.
  contains_any-shl : contains_any checks h s e ≡ (
      checked_shl checks 1 (span h.last_tick s e + 1) >>= λ ones.
      checked_shl checks (ones - 1) (sub h.last_tick s - span h.last_tick s e) >>= λ mask.
      ok (not (bit_and h.mask mask == 0)))
  unfolding contains_any cut
  contains_any-shl =
      rw (in-IsSpan.ordered, in-IsSpan.not_ahead, in-IsSpan.not_old, debug_assert-true checks)
        (rw (in-IsSpan.sub_end, in-IsSpan.offset_end) refl)

  contains_any-asked :
      span h.last_tick s e + 1 < 64 → contains_any checks h s e ≡ ok (not (asked h s e == 0))
  unfolding asked range_mask
  contains_any-asked short =
      contains_any-shl
      ∙ rw
          (
            checked_shl_lem checks 1 (span h.last_tick s e + 1) short,
            pow_cut (span h.last_tick s e + 1) short,
          )
          (rw
            (checked_shl_lem checks (2 ^ (span h.last_tick s e + 1) - 1)
              (sub h.last_tick s - span h.last_tick s e) (omega arith))
            refl)

  -- Where the range is shorter than the mask, that is, it does not hold all 64 ticks up to the
  -- last one, `contains_any` panics in no build and answers whether `contains` holds of some tick
  -- of the range.
  pub contains_any-any_tick :
      (sub e s < 63) ⊎ (sub h.last_tick s < 63)
      → contains_any checks h s e ≡ ok (any_tick (contains h) s (sub e s))
  contains_any-any_tick short =
      contains_any-asked (unfold span in ground arith)
      ∙ ap ok (
          Bool_ext _ _ (some_marked h s e v p recent in-IsSpan)
            (marked_some h s e v p recent in-IsSpan))

  -- A range that holds all 64 ticks up to the last one is answered wrongly: the build with checks
  -- panics, and the build without answers `false`, though the last tick is contained.
  pub contains_any_full_window :
      sub h.last_tick s ≡ 63
      → 63 ≤ sub e s
      → (contains_any checks h s e ≡ (if checks then panic else ok false))
        × (any_tick (contains h) s (sub e s) ≡ true)
  unfolding checked_shl
  contains_any_full_window full long =
      let wide : span h.last_tick s e ≡ 63 = unfold span in ground arith in
      (
        contains_any-shl ∙ rw (wide, full) (ground (arith, bit_and-zero h.mask)),
        any_tick-intro (contains h) s (sub e s) 63 p long (
            ground (
              arith,
              contains-bit h (add s 63) v.is_tick (add-IsTick s 63),
              in-IsSpan.sub_back 63,
              v.marked,
            )),
      )
