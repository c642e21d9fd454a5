-- ===== src/Common/Maps.antt =====
-- `HashMap`, `EntityHashMap` and `HashSet` as association lists and lists over number keys.
-- The order of the entries stands for the iteration order, which the hash leaves open.
use Prim.Native.Nat.{ℕ}
use mathlib.Core.Path.{◌≡◌, refl}
use mathlib.Core.Bool.{Bool, true, false, ◌||◌}
use mathlib.Core.Option.{Option, none, some}
use mathlib.Core.List.{List, [], ◌∷◌}
use native.Mathlib.Omega.{arith}
use bevy_mod_replication.Common.Tests.{◌==◌, if◌then◌else◌}

module _ {ℓ} {V : Type ℓ} where
  unfoldable pub lookup : ℕ → List (ℕ × V) → Option V
  lookup k [] = none
  lookup k ((j, v) ∷ m) = if j == k then some v else lookup k m

  unfoldable pub insert : ℕ → V → List (ℕ × V) → List (ℕ × V)
  insert key value [] = (key, value) ∷ []
  insert key value ((other, old) ∷ rest) =
      if other == key then (key, value) ∷ rest else (other, old) ∷ insert key value rest

  unfoldable pub erase : ℕ → List (ℕ × V) → List (ℕ × V)
  erase key [] = []
  erase key ((other, old) ∷ rest) =
      if other == key then erase key rest else (other, old) ∷ erase key rest

  pub lookup-insert :
      (key at : ℕ) (value : V) (entries : List (ℕ × V))
      → lookup at (insert key value entries) ≡ (if key == at then some value else lookup at entries)
  unfolding lookup insert
  lookup-insert key at value [] = refl
  lookup-insert key at value ((other, old) ∷ rest) = ground (arith, lookup-insert key at value rest)

  pub lookup-erase :
      (key at : ℕ) (entries : List (ℕ × V))
      → lookup at (erase key entries) ≡ (if key == at then none else lookup at entries)
  unfolding lookup erase
  lookup-erase key at [] = ground arith
  lookup-erase key at ((other, old) ∷ rest) = ground (arith, lookup-erase key at rest)

-- Sets of keys.
unfoldable pub contains : ℕ → List ℕ → Bool
contains k [] = false
contains k (j ∷ s) = j == k || contains k s

unfoldable pub set_insert : ℕ → List ℕ → List ℕ
set_insert k s = if contains k s then s else k ∷ s

unfoldable pub set_erase : ℕ → List ℕ → List ℕ
set_erase k [] = []
set_erase k (j ∷ s) = if j == k then set_erase k s else j ∷ set_erase k s

pub contains-insert :
    (k j : ℕ) (s : List ℕ) → contains j (set_insert k s) ≡ (if k == j then true else contains j s)
unfolding contains set_insert
contains-insert k j s = ground arith

pub contains-erase :
    (k j : ℕ) (s : List ℕ) → contains j (set_erase k s) ≡ (if k == j then false else contains j s)
unfolding contains set_erase
contains-erase k j [] = ground arith
contains-erase k j (i ∷ s) = ground (arith, contains-erase k j s)
