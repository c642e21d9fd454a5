-- ===== src/Common/Descending.antt =====
-- Lists in descending order of a key, which the rules and the markers are kept in.
use Prim.Native.Nat.{ℕ, zero, suc, ◌≤◌}
use mathlib.Core.Path.{◌≡◌, subst}
use mathlib.Core.Option.{some}
use mathlib.Core.List.{List, [], ◌∷◌, ◌++◌}
use native.Mathlib.Omega.{arith}
use bevy_mod_replication.Common.Lists.{length, take, drop, All, get_elem?}

module _ {A : Type 0} where
  unfoldable pub IsDescending : (A → ℕ) → List A → Type 0
  IsDescending key [] = Unit
  IsDescending key (a ∷ rest) = All (λ b. key b ≤ key a) rest × IsDescending key rest

  -- The documented result of a binary search for a key: what is before the index has the key or a higher
  -- one, and what is from the index on has the key or a lower one.
  abbrev pub IsSearch : (A → ℕ) → (List A → ℕ → ℕ) → Type 0
  IsSearch key binary_search =
      (items : List A) (k : ℕ)
      → IsDescending key items
      → (binary_search items k ≤ length items)
        × All (λ b. k ≤ key b) (take (binary_search items k) items)
        × All (λ b. key b ≤ k) (drop (binary_search items k) items)

  -- The list with an element put in at an index.
  abbrev pub placed : ℕ → A → List A → List A
  placed i a items = take i items ++ (a ∷ drop i items)

  pub placed-All :
      (P : A → Type 0) (i : ℕ) (a : A) (items : List A)
      → P a
      → All P items
      → All P (placed i a items)
  placed-All P zero a items p h = (p, h)
  placed-All P (suc i) a [] p h = (p, tt)
  placed-All P (suc i) a (x ∷ items) p h = (h.0, placed-All P i a items p h.1)

  pub placed-IsDescending :
      (key : A → ℕ) (i : ℕ) (a : A) (items : List A)
      → IsDescending key items
      → All (λ b. key a ≤ key b) (take i items)
      → All (λ b. key b ≤ key a) (drop i items)
      → IsDescending key (placed i a items)
  unfolding IsDescending
  placed-IsDescending key zero a items d before after = (after, d)
  placed-IsDescending key (suc i) a [] d before after = (tt, tt)
  placed-IsDescending key (suc i) a (x ∷ items) d before after = (
    placed-All (λ b. key b ≤ key x) i a items before.0 d.0,
    placed-IsDescending key i a items d.1 before.1 after,
  )

  All-get :
      (P : A → Type 0) (items : List A) (i : ℕ) (a : A)
      → All P items
      → get_elem? items i ≡ some a
      → P a
  All-get P [] i a h e = absurd cc
  All-get P (x ∷ items) zero a h e = let same : x ≡ a = cc in subst P same h.0
  All-get P (x ∷ items) (suc i) a h e = All-get P items i a h.1 e

  pub descending-le :
      (key : A → ℕ) (items : List A) (i j : ℕ) (a b : A)
      → IsDescending key items
      → i ≤ j
      → get_elem? items i ≡ some a
      → get_elem? items j ≡ some b
      → key b ≤ key a
  unfolding IsDescending
  descending-le key [] i j a b d l e e' = absurd cc
  descending-le key (x ∷ items) zero zero a b d l e e' =
      let same : a ≡ b = cc in subst (λ c. key c ≤ key a) same (omega arith)
  descending-le key (x ∷ items) zero (suc j) a b d l e e' =
      let same : x ≡ a = cc in
      subst (λ c. key b ≤ key c) same (All-get (λ c. key c ≤ key x) items j b d.0 e')
  descending-le key (x ∷ items) (suc i) zero a b d l e e' = absurd (omega arith)
  descending-le key (x ∷ items) (suc i) (suc j) a b d l e e' =
      descending-le key items i j a b d.1 (omega arith) e e'
