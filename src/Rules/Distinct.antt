-- ===== src/Rules/Distinct.antt =====
-- server/removal_buffer.rs: the removals that are collected are distinct, and removed.
use bevy_mod_replication.Common.{
  ℕ, ◌≡◌, refl, sym, Bool, true, false, not, none, List, [], ◌∷◌, ◌++◌, all, ◌==◌, if◌then◌else◌,
  subst, ==→eq, arith, Bool-cases, inl, inr,
}
use bevy_mod_replication.Common.Maps.{lookup}
use bevy_mod_replication.Rules.{ReplicationRule, matches_removals, add_ids, collect_ids}

pub either : {A : Type 0} (P : A → Type 0) (b : Bool) (x y : A) → P x → P y → P (if b then x else y)
either P true x y p q = p
either P false x y p q = q

-- No component is there twice, and the archetype has none of them.
unfoldable pub AreRemoved : (ℕ → Bool) → List (ℕ × ℕ) → Type 0
AreRemoved archetype [] = Unit
AreRemoved archetype ((k, v) ∷ xs) =
    (all (λ r. not (r.0 == k)) xs ≡ true) × (archetype k ≡ false) × AreRemoved archetype xs

all-snoc :
    (k : ℕ) (c : ℕ × ℕ) (xs : List (ℕ × ℕ))
    → all (λ r. not (r.0 == k)) xs ≡ true
    → (c.0 == k) ≡ false
    → all (λ r. not (r.0 == k)) (xs ++ (c ∷ [])) ≡ true
all-snoc k c [] h new = rw new refl
all-snoc k c (x ∷ xs) h new = elim (Bool-cases (x.0 == k)) [
  | inl same ↦ let no : false ≡ true = rw same at h in absurd cc
  | inr other ↦ rw other (all-snoc k c xs (rw other at h) new)
]

snoc-AreRemoved :
    (archetype : ℕ → Bool) (c : ℕ × ℕ) (xs : List (ℕ × ℕ))
    → AreRemoved archetype xs
    → all (λ r. not (r.0 == c.0)) xs ≡ true
    → archetype c.0 ≡ false
    → AreRemoved archetype (xs ++ (c ∷ []))
unfolding AreRemoved
snoc-AreRemoved archetype c [] h new gone = (refl, gone, tt)
snoc-AreRemoved archetype c ((k, v) ∷ xs) h new gone = elim (Bool-cases (k == c.0)) [
  | inl same ↦ let no : false ≡ true = rw same at new in absurd cc
  | inr other ↦
      let turned : (c.0 == k) ≡ false = ground (arith, other) in
      (all-snoc k c xs h.0 turned, h.1, snoc-AreRemoved archetype c xs h.2 (rw other at new) gone)
]

add_ids-AreRemoved :
    (archetype : ℕ → Bool) (cs xs : List (ℕ × ℕ))
    → AreRemoved archetype xs
    → AreRemoved archetype (add_ids archetype xs cs)
unfolding add_ids
add_ids-AreRemoved archetype [] xs h = h
add_ids-AreRemoved archetype (c ∷ cs) xs h =
    add_ids-AreRemoved archetype cs _ (elim (Bool-cases (all (λ r. not (r.0 == c.0)) xs)) [
      | inl new ↦ elim (Bool-cases (archetype c.0)) [
        | inl there ↦ rw (new, there) h
        | inr gone ↦ rw (new, gone) (snoc-AreRemoved archetype c xs h new gone)
      ]
      | inr known ↦ rw known h
    ])

pub collect_ids-AreRemoved :
    (archetype : ℕ → Bool) (removed : List ℕ) (rules : List ReplicationRule) (xs : List (ℕ × ℕ))
    → AreRemoved archetype xs
    → AreRemoved archetype (collect_ids archetype removed rules xs)
unfolding collect_ids
collect_ids-AreRemoved archetype removed [] xs h = h
collect_ids-AreRemoved archetype removed (rule ∷ rules) xs h =
    collect_ids-AreRemoved archetype removed rules _ (
      either (AreRemoved archetype) (matches_removals archetype removed rule) _ _
        (add_ids-AreRemoved archetype rule.components xs h) h)

pub removed-lookup :
    (archetype : ℕ → Bool) (id : ℕ) (xs : List (ℕ × ℕ))
    → AreRemoved archetype xs
    → archetype id ≡ true
    → lookup id xs ≡ none
unfolding AreRemoved lookup
removed-lookup archetype id [] h there = refl
removed-lookup archetype id ((k, v) ∷ xs) h there = elim (Bool-cases (k == id)) [
  | inl same ↦
      let e : k ≡ id = ==→eq k id same in
      let no : archetype k ≡ true = subst (λ n. archetype n ≡ true) (sym e) there in absurd cc
  | inr other ↦ rw other (removed-lookup archetype id xs h.2 there)
]
