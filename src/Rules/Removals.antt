-- ===== src/Rules/Removals.antt =====
-- server/removal_buffer.rs: which functions are buffered for a removed component.
use bevy_mod_replication.Common.{
  ℕ, ◌≡◌, refl, sym, ap, ◌∙◌, Bool, true, false, not, ◌&&◌, Option, none, some, List, [], ◌∷◌, ◌++◌,
  all, ◌==◌, if◌then◌else◌, subst, ◌⊎◌, ==→eq, Bool-cases, inl, inr,
}
use bevy_mod_replication.Common.Maps.{lookup}
use bevy_mod_replication.Rules.Concerned.{concerns, matches_removals-concerns}
use bevy_mod_replication.Rules.Distinct.{either, AreRemoved, collect_ids-AreRemoved, removed-lookup}
use bevy_mod_replication.Rules.{ReplicationRule, add_ids, collect_ids}

abbrev pub or_else : Option ℕ → Option ℕ → Option ℕ
or_else none o = o
or_else (some a) o = some a

-- The functions of a component in the first rule that is concerned and names it.
unfoldable pub first_fns : (ℕ → Bool) → List ℕ → List ReplicationRule → ℕ → Option ℕ
first_fns archetype removed [] id = none
first_fns archetype removed (rule ∷ rules) id =
    or_else (if concerns archetype removed rule then lookup id rule.components else none)
      (first_fns archetype removed rules id)

pub lookup-append :
    (id : ℕ) (xs ys : List (ℕ × ℕ)) → lookup id (xs ++ ys) ≡ or_else (lookup id xs) (lookup id ys)
unfolding lookup
lookup-append id [] ys = refl
lookup-append id ((k, v) ∷ xs) ys = elim (Bool-cases (k == id)) [
  | inl same ↦ rw same refl
  | inr different ↦ rw different (lookup-append id xs ys)
]

all-cases :
    (id : ℕ) (xs : List (ℕ × ℕ))
    → ((all (λ r. not (r.0 == id)) xs ≡ true) × (lookup id xs ≡ none))
      ⊎ ((all (λ r. not (r.0 == id)) xs ≡ false) × ((a : ℕ) × (lookup id xs ≡ some a)))
unfolding lookup
all-cases id [] = inl (refl, refl)
all-cases id ((k, v) ∷ xs) = elim (Bool-cases (k == id)) [
  | inl same ↦ rw same (inr (refl, (v, refl)))
  | inr different ↦ rw different (all-cases id xs)
]

pub or_else-none : (o : Option ℕ) → or_else o none ≡ o
or_else-none none = refl
or_else-none (some a) = refl

pub or_else_assoc : (x y z : Option ℕ) → or_else (or_else x y) z ≡ or_else x (or_else y z)
or_else_assoc none y z = refl
or_else_assoc (some a) y z = refl

-- One component, of an id that the archetype does not have or of another.
lookup-added :
    (archetype : ℕ → Bool) (id k v : ℕ) (xs : List (ℕ × ℕ))
    → archetype id ≡ false
    → lookup id
        (if all (λ r. not (r.0 == k)) xs && not (archetype k) then xs ++ ((k, v) ∷ []) else xs)
      ≡ or_else (lookup id xs) (lookup id ((k, v) ∷ []))
lookup-added archetype id k v xs h = elim (Bool-cases (k == id)) [
  | inl same ↦
      let e : k ≡ id = ==→eq k id same in
      let at_id : lookup id (
            if all (λ r. not (r.0 == id)) xs && not (archetype id)
            then xs ++ ((id, v) ∷ [])
            else xs)
          ≡ or_else (lookup id xs) (lookup id ((id, v) ∷ [])) =
        elim (all-cases id xs) [
          | inl new ↦ rw (new.0, h) (lookup-append id xs ((id, v) ∷ []))
          | inr old ↦ rw (old.0, old.1.1) refl
        ] in
      subst
        (λ n.
          lookup id
            (if all (λ r. not (r.0 == n)) xs && not (archetype n) then xs ++ ((n, v) ∷ []) else xs)
          ≡ or_else (lookup id xs) (lookup id ((n, v) ∷ [])))
        (sym e) at_id
  | inr different ↦
      let nothing : lookup id ((k, v) ∷ []) ≡ none = unfold lookup in rw different refl in
      let kept : lookup id (xs ++ ((k, v) ∷ [])) ≡ lookup id xs =
        lookup-append id xs ((k, v) ∷ [])
        ∙ ap (or_else (lookup id xs)) nothing
        ∙ or_else-none (lookup id xs) in
      rw (nothing, or_else-none (lookup id xs))
        (either (λ ys. lookup id ys ≡ lookup id xs)
          (all (λ r. not (r.0 == k)) xs && not (archetype k)) (xs ++ ((k, v) ∷ [])) xs kept refl)
]

add_ids-lookup :
    (archetype : ℕ → Bool) (id : ℕ) (cs xs : List (ℕ × ℕ))
    → archetype id ≡ false
    → lookup id (add_ids archetype xs cs) ≡ or_else (lookup id xs) (lookup id cs)
unfolding add_ids lookup
add_ids-lookup archetype id [] xs h = sym (or_else-none (lookup id xs))
add_ids-lookup archetype id ((k, v) ∷ cs) xs h =
    add_ids-lookup archetype id cs _ h
    ∙ ap (λ o. or_else o (lookup id cs)) (lookup-added archetype id k v xs h)
    ∙ or_else_assoc (lookup id xs) (lookup id ((k, v) ∷ [])) (lookup id cs)
    ∙ ap (or_else (lookup id xs)) (sym (lookup-append id ((k, v) ∷ []) cs))

collect_ids-lookup_from :
    (archetype : ℕ → Bool) (removed : List ℕ) (id : ℕ) (rules : List ReplicationRule)
    (xs : List (ℕ × ℕ))
    → archetype id ≡ false
    → lookup id (collect_ids archetype removed rules xs)
      ≡ or_else (lookup id xs) (first_fns archetype removed rules id)
unfolding collect_ids first_fns
collect_ids-lookup_from archetype removed id [] xs h = sym (or_else-none (lookup id xs))
collect_ids-lookup_from archetype removed id (rule ∷ rules) xs h =
    let same = matches_removals-concerns archetype removed rule in
    elim (Bool-cases (concerns archetype removed rule)) [
      | inl matched ↦
          rw (same, matched)
            (collect_ids-lookup_from archetype removed id rules
                (add_ids archetype xs rule.components) h
              ∙ ap (λ o. or_else o (first_fns archetype removed rules id))
                  (add_ids-lookup archetype id rule.components xs h)
              ∙ or_else_assoc (lookup id xs) (lookup id rule.components)
                  (first_fns archetype removed rules id))
      | inr unmatched ↦
          rw (same, unmatched) (collect_ids-lookup_from archetype removed id rules xs h)
    ]

-- The removals that are collected have no component twice, and none that the archetype still has. Every
-- other component has the functions of the first rule of the list that names it and is concerned, which
-- is that something the rule names is removed and the archetype has the rest of what it names; it
-- is not there where no rule is.
pub collect_ids-lookup :
    (archetype : ℕ → Bool) (removed : List ℕ) (rules : List ReplicationRule)
    → AreRemoved archetype (collect_ids archetype removed rules [])
      × ((id : ℕ)
          → lookup id (collect_ids archetype removed rules [])
            ≡ (if archetype id then none else first_fns archetype removed rules id))
collect_ids-lookup archetype removed rules =
    let all_removed : AreRemoved archetype (collect_ids archetype removed rules []) =
      collect_ids-AreRemoved archetype removed rules [] (unfold AreRemoved in tt) in
    (
      all_removed,
      λ id. elim (Bool-cases (archetype id)) [
        | inl there ↦ rw there (removed-lookup archetype id _ all_removed there)
        | inr gone ↦
            rw gone (unfold lookup in collect_ids-lookup_from archetype removed id rules [] gone)
      ],
    )
