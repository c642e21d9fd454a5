-- ===== src/Common/Bits.antt =====
-- The bits of a word: `|`, `&`, `<<` and `>>` digit by digit, at every width.
pub use Prim.Native.Nat.{bit_or, bit_and}
use Prim.Native.Nat.{
  ℕ, zero, suc, ◌+◌, ◌-◌, ◌*◌, ◌/◌, ◌%◌, ◌^◌, ◌≤◌, ◌<◌, min, max, bitwise, digits, bit_and-bitwise,
  bit_or-bitwise,
}
use mathlib.Core.Path.{◌≡◌, refl, ap}
use native.Mathlib.Omega.{arith}
use native.Mathlib.Decide.{dec_lt}
use mathlib.Core.Logic.{◌≢◌}
use native.Mathlib.Nat.{
  le_refl, one-le-pow, pow-suc, pow-succ', div-div-eq-div-mul, mul-one, sub-zero, mod-one,
  mod-eq-sub-mul-div, div-add-mod, suc-sub-suc,
}
use bevy_mod_replication.Common.Tests.{◌==◌, ltb, if◌then◌else◌}

-- `x >> k`; `x << k` before it is cut to the width.
abbrev pub shr : ℕ → ℕ → ℕ
shr x k = x / 2 ^ k

abbrev pub shl : ℕ → ℕ → ℕ
shl x k = x * 2 ^ k

-- The bit at a place.
unfoldable pub bit : ℕ → ℕ → ℕ
bit a zero = a % 2
bit a (suc i) = bit (a / 2) i

module _ (rest : ℕ → ℕ) (digit : ℕ → ℕ → ℕ) where
  -- Any fuel that covers the first number gives the same digits.
  enough_digits :
      (fuel more x y : ℕ)
      → x ≤ fuel
      → x ≤ more
      → digits rest digit fuel x y ≡ digits rest digit more x y
  enough_digits zero zero x y few many = refl
  enough_digits (suc fuel) zero (suc x) y few many = absurd (omega arith)
  enough_digits (suc fuel) zero zero y few many = refl
  enough_digits zero (suc more) (suc x) y few many = absurd (omega arith)
  enough_digits zero (suc more) zero y few many = refl
  enough_digits (suc fuel) (suc more) zero y few many = refl
  enough_digits (suc fuel) (suc more) (suc x) y few many =
      let half : suc x / 2 ≤ fuel = omega arith in
      rw (enough_digits fuel more (suc x / 2) (y / 2) half (omega arith))

  lowest_digit :
      (x y : ℕ)
      → bitwise rest digit (suc x) y
        ≡ digit (suc x % 2) (y % 2) + 2 * bitwise rest digit (suc x / 2) (y / 2)
  lowest_digit x y =
      let half : suc x / 2 ≤ x = omega arith in
      omega (arith, enough_digits x (suc x / 2) (suc x / 2) (y / 2) half (le_refl _))

bit_or_low : (x y : ℕ) → bit_or x y ≡ max (x % 2) (y % 2) + 2 * bit_or (x / 2) (y / 2)
bit_or_low (suc x) y = simp bit_or-bitwise (lowest_digit (λ b. b) max x y)
bit_or_low zero y = simp bit_or-bitwise (omega arith)

bit_and_low : (x y : ℕ) → bit_and x y ≡ min (x % 2) (y % 2) + 2 * bit_and (x / 2) (y / 2)
bit_and_low (suc x) y = simp bit_and-bitwise (lowest_digit (λ _. 0) min x y)
bit_and_low zero y = simp bit_and-bitwise (omega arith)

pub bit-lt : (a i : ℕ) → bit a i < 2
unfolding bit
bit-lt a zero = omega arith
bit-lt a (suc i) = bit-lt (a / 2) i

pub bit-bit_or : (a b i : ℕ) → bit (bit_or a b) i ≡ max (bit a i) (bit b i)
unfolding bit
bit-bit_or a b zero = omega (arith, bit_or_low a b)
bit-bit_or a b (suc i) =
    let half : bit_or a b / 2 ≡ bit_or (a / 2) (b / 2) = omega (arith, bit_or_low a b) in
    rw half (bit-bit_or (a / 2) (b / 2) i)

pub bit-bit_and : (a b i : ℕ) → bit (bit_and a b) i ≡ min (bit a i) (bit b i)
unfolding bit
bit-bit_and a b zero = omega (arith, bit_and_low a b)
bit-bit_and a b (suc i) =
    let half : bit_and a b / 2 ≡ bit_and (a / 2) (b / 2) = omega (arith, bit_and_low a b) in
    rw half (bit-bit_and (a / 2) (b / 2) i)

pub bit-zero : (i : ℕ) → bit 0 i ≡ 0
unfolding bit
bit-zero zero = refl
bit-zero (suc i) = bit-zero i

mul_two_pow : (k x : ℕ) → x * 2 ^ suc k ≡ 2 * (x * 2 ^ k)
mul_two_pow k x = omega (arith, ap (λ (t : ℕ). x * t) (pow-suc 2 k))

bit_and_nothing : (fuel x : ℕ) → x ≤ fuel → bit_and x 0 ≡ 0
bit_and_nothing fuel zero small = refl
bit_and_nothing zero (suc x) small = absurd (omega arith)
bit_and_nothing (suc fuel) (suc x) small =
    let half : suc x / 2 ≤ fuel = omega arith in
    omega (arith, bit_and_nothing fuel (suc x / 2) half, bit_and_low (suc x) 0)

pub bit_and-zero : (x : ℕ) → bit_and x 0 ≡ 0
bit_and-zero x = bit_and_nothing x x (le_refl x)

-- `x & 1`.
pub bit_and-one : (x : ℕ) → bit_and x 1 ≡ x % 2
bit_and-one x = omega (arith, bit_and-zero (x / 2), bit_and_low x 1)

-- `x >> k & 1` reads the bit at `k`.
pub bit-eq-shr : (k x : ℕ) → bit x k ≡ shr x k % 2
unfolding bit
bit-eq-shr zero x = omega arith
bit-eq-shr (suc k) x = rw (pow-succ' 2 k, ← div-div-eq-div-mul x 2 (2 ^ k)) (bit-eq-shr k (x / 2))

-- `1 << k`.
pub bit-pow : (k i : ℕ) → bit (2 ^ k) i ≡ (if i == k then 1 else 0)
unfolding bit
bit-pow zero zero = refl
bit-pow zero (suc i) = ground (arith, bit-zero i)
bit-pow (suc k) zero = ground (arith, pow-suc 2 k)
bit-pow (suc k) (suc i) =
    let half : 2 ^ suc k / 2 ≡ 2 ^ k = omega (arith, pow-suc 2 k) in
    rw half (ground (arith, bit-pow k i))

-- `x << k`, and the cut to a width.
pub bit-shl : (k x i : ℕ) → bit (shl x k) i ≡ (if ltb i k then 0 else bit x (i - k))
unfolding bit
bit-shl zero x i = rw (mul-one x, sub-zero i) (ground arith)
bit-shl (suc k) x zero = ground (arith, mul_two_pow k x)
bit-shl (suc k) x (suc i) =
    let half : x * 2 ^ suc k / 2 ≡ x * 2 ^ k = omega (arith, mul_two_pow k x) in
    rw (half, suc-sub-suc) (ground (arith, bit-shl k x i))

mod_half : (m x : ℕ) → x % (2 * m) / 2 ≡ x / 2 % m
mod_half m x = omega (
  arith,
  mod-eq-sub-mul-div x (2 * m),
  ap (λ (t : ℕ). 2 * m * t) (div-div-eq-div-mul x 2 m),
  div-add-mod (x / 2) m,
)

mod_low : (m x : ℕ) → x % (2 * m) % 2 ≡ x % 2
mod_low m x = omega (
  arith,
  mod-eq-sub-mul-div x (2 * m),
  ap (λ (t : ℕ). 2 * m * t) (div-div-eq-div-mul x 2 m),
  div-add-mod (x / 2) m,
)

pub bit-mod : (w x i : ℕ) → bit (x % 2 ^ w) i ≡ (if ltb i w then bit x i else 0)
unfolding bit
bit-mod zero x i = rw (mod-one x, bit-zero i) (ground arith)
bit-mod (suc w) x zero = rw (pow-succ' 2 w, mod_low (2 ^ w) x) (ground arith)
bit-mod (suc w) x (suc i) =
    rw (pow-succ' 2 w, mod_half (2 ^ w) x) (ground (arith, bit-mod w (x / 2) i))

pub bit_or-lt : (w a b : ℕ) → a < 2 ^ w → b < 2 ^ w → bit_or a b < 2 ^ w
bit_or-lt zero a b p q = ground (arith, bit_or_low a b, bit_or_low 0 0)
bit_or-lt (suc w) a b p q =
    let half : bit_or (a / 2) (b / 2) < 2 ^ w =
      bit_or-lt w (a / 2) (b / 2) (omega (arith, pow-suc 2 w)) (omega (arith, pow-suc 2 w)) in
    omega (arith, half, bit_or_low a b, pow-suc 2 w)

pub bit_and-lt : (w a b : ℕ) → a < 2 ^ w → bit_and a b < 2 ^ w
bit_and-lt zero a b p =
    ground (arith, bit_and_low a b, bit_and_low 0 (b / 2), bit_and-bitwise 0 (b / 2))
bit_and-lt (suc w) a b p =
    let half : bit_and (a / 2) (b / 2) < 2 ^ w =
      bit_and-lt w (a / 2) (b / 2) (omega (arith, pow-suc 2 w)) in
    omega (arith, half, bit_and_low a b, pow-suc 2 w)

-- Two words with the same bits are equal.
pub bits_ext : (w a b : ℕ) → a < 2 ^ w → b < 2 ^ w → ((i : ℕ) → i < w → bit a i ≡ bit b i) → a ≡ b
unfolding bit
bits_ext zero a b p q h = omega arith
bits_ext (suc w) a b p q h =
    let rest : a / 2 ≡ b / 2 =
      bits_ext w (a / 2) (b / 2) (omega (arith, pow-suc 2 w)) (omega (arith, pow-suc 2 w))
        (λ i l. h (suc i) (omega arith)) in
    omega (arith, h 0 (omega arith), rest)

-- `(1 << len) - 1` has the `len` lowest bits.
pub bit-ones : (n i : ℕ) → bit (2 ^ n - 1) i ≡ (if ltb i n then 1 else 0)
unfolding bit
bit-ones zero i = ground (arith, bit-zero i)
bit-ones (suc n) zero = ground (arith, pow-suc 2 n, one-le-pow n 2)
bit-ones (suc n) (suc i) =
    let half : (2 ^ suc n - 1) / 2 ≡ 2 ^ n - 1 = omega (arith, pow-suc 2 n, one-le-pow n 2) in
    rw half (ground (arith, bit-ones n i))

-- A word that is not zero has a bit.
pub some_bit : (w a : ℕ) → a < 2 ^ w → a ≢ 0 → (i : ℕ) × (i < w) × (bit a i ≡ 1)
unfolding bit
some_bit zero a h ne = absurd (ne (omega arith))
some_bit (suc w) a h ne = elim (dec_lt (a % 2) 1) [
  | no odd ↦ (0, omega arith, omega arith)
  | yes even ↦
      let (i, l, e) = some_bit w (a / 2) (omega (arith, pow-suc 2 w)) (omega arith) in
      (suc i, omega arith, e)
]

bit_or_nothing : (fuel x : ℕ) → x ≤ fuel → bit_or x 0 ≡ x
bit_or_nothing fuel zero small = refl
bit_or_nothing zero (suc x) small = absurd (omega arith)
bit_or_nothing (suc fuel) (suc x) small =
    let half : suc x / 2 ≤ fuel = omega arith in
    omega (arith, bit_or_nothing fuel (suc x / 2) half, bit_or_low (suc x) 0)

-- `|` of a shifted number and one that fits below it.
pub bit_or-add : (k hi lo : ℕ) → lo < 2 ^ k → bit_or (hi * 2 ^ k) lo ≡ hi * 2 ^ k + lo
bit_or-add zero hi lo h =
    let none_left : lo ≡ 0 = omega arith in
    rw none_left (omega (arith, bit_or_nothing (hi * 1) (hi * 1) (le_refl _)))
bit_or-add (suc k) hi lo h =
    let double = mul_two_pow k hi in
    let half : hi * 2 ^ suc k / 2 ≡ hi * 2 ^ k = omega (arith, double) in
    omega (
      arith,
      double,
      pow-suc 2 k,
      bit_or_low (hi * 2 ^ suc k) lo,
      bit_or-add k hi (lo / 2) (omega (arith, pow-suc 2 k)),
      ap (λ (x : ℕ). bit_or x (lo / 2)) half,
    )
