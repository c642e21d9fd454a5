-- ===== src/Common/Faults.antt =====
-- The outcome of code that may panic: `debug_assert!`, arithmetic overflow in a build with checks,
-- an index out of range, `expect`.
use mathlib.Core.Path.{◌≡◌, refl, ap}
use mathlib.Core.Bool.{Bool, true, false}
use mathlib.Core.Option.{Option, none, some}

pub data Outcome {ℓ} (A : Type ℓ) : Type ℓ where
  ok : A → Outcome A
  panic : Outcome A

infixl 5 ◌>>=◌ ◌>>◌
abbrev pub ◌>>=◌ {ℓ κ} : {A : Type ℓ} {B : Type κ} → Outcome A → (A → Outcome B) → Outcome B
ok a >>= f = f a
panic >>= f = panic

abbrev pub ◌>>◌ {ℓ} : {B : Type ℓ} → Outcome (Unit {0}) → Outcome B → Outcome B
m >> k = m >>= λ _. k

-- `Option::expect`.
abbrev pub expect {ℓ} : {A : Type ℓ} → Option A → Outcome A
expect none = panic
expect (some a) = ok a

-- `assert!`: a false condition panics.
abbrev pub assert : Bool → Outcome (Unit {0})
assert true = ok tt
assert false = panic

-- `debug_assert!`: the first argument says whether the build has debug assertions.
abbrev pub debug_assert : Bool → Bool → Outcome (Unit {0})
debug_assert true b = assert b
debug_assert false b = ok tt

-- The code returns, and what it returns satisfies `P`.
abbrev pub Returns {ℓ} : {A : Type ℓ} → Outcome A → (A → Type 0) → Type 0
Returns (ok a) P = P a
Returns panic P = ⊥

pub debug_assert-true : (checks : Bool) → debug_assert checks true ≡ ok tt
debug_assert-true true = refl
debug_assert-true false = refl

-- A chain that returns: its first part returns, and the rest with that.
pub >>=-ok {ℓ κ} :
    {A : Type ℓ} {B : Type κ} (m : Outcome A) (f : A → Outcome B) (b : B)
    → (m >>= f) ≡ ok b
    → (a : A) × (m ≡ ok a) × (f a ≡ ok b)
>>=-ok (ok a) f b h = (a, refl, h)
>>=-ok panic f b h = absurd cc

pub expect-ok {ℓ} : {A : Type ℓ} (o : Option A) (a : A) → expect o ≡ ok a → o ≡ some a
expect-ok none a h = absurd cc
expect-ok (some b) a h = let same : b ≡ a = cc in ap some same
