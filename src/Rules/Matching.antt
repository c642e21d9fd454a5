-- ===== src/Rules/Matching.antt =====
-- server/replicated_archetypes.rs: which functions a component of an archetype is replicated with.
use bevy_mod_replication.Common.{
  ℕ, ◌≡◌, refl, sym, ap, ◌∙◌, subst, Bool, true, false, Option, none, some, List, [], ◌∷◌, ◌++◌,
  map, any, all, ◌==◌, if◌then◌else◌, ok, Bool-cases, inl, inr, arith, ◌⊎◌, ==→eq,
}
use bevy_mod_replication.Common.Maps.{lookup}
use bevy_mod_replication.Rules.{ReplicationRule, matches}
use bevy_mod_replication.Rules.Removals.{or_else, or_else-none, or_else_assoc, lookup-append}
use bevy_mod_replication.Rules.Archetypes.{
  Archetype, is_there, ReplicatedComponent, has_component, add_components, add_rules,
}

-- The functions of a component in the first rule that matches the archetype and has it.
unfoldable pub first_matching : (ℕ → Bool) → List ReplicationRule → ℕ → Option ℕ
first_matching archetype [] id = none
first_matching archetype (rule ∷ rules) id =
    or_else (if matches archetype rule then lookup id rule.components else none)
      (first_matching archetype rules id)

module _ {Storage : Type 0} where
  -- The components with their functions.
  abbrev pub fns_of : List (ReplicatedComponent Storage) → List (ℕ × ℕ)
  fns_of components = map (λ c. (c.component_id, c.fns_id)) components

  -- No component is there twice, and each has the storage that the archetype has it in.
  unfoldable pub IsListed : Archetype Storage → List (ReplicatedComponent Storage) → Type 0
  IsListed archetype [] = Unit
  IsListed archetype (c ∷ cs) =
      (any (λ d. d.component_id == c.component_id) cs ≡ false)
      × (archetype.storage_type c.component_id ≡ some c.storage)
      × IsListed archetype cs

  any-snoc :
      (id : ℕ) (xs : List (ReplicatedComponent Storage)) (entry : ReplicatedComponent Storage)
      → any (λ d. d.component_id == id) xs ≡ false
      → (entry.component_id == id) ≡ false
      → any (λ d. d.component_id == id) (xs ++ (entry ∷ [])) ≡ false
  any-snoc id [] entry h new = rw new refl
  any-snoc id (x ∷ xs) entry h new = elim (Bool-cases (x.component_id == id)) [
    | inl same ↦ let no : true ≡ false = rw same at h in absurd cc
    | inr other ↦ rw other (any-snoc id xs entry (rw other at h) new)
  ]

  snoc-IsListed :
      (archetype : Archetype Storage) (xs : List (ReplicatedComponent Storage))
      (entry : ReplicatedComponent Storage)
      → IsListed archetype xs
      → any (λ d. d.component_id == entry.component_id) xs ≡ false
      → archetype.storage_type entry.component_id ≡ some entry.storage
      → IsListed archetype (xs ++ (entry ∷ []))
  unfolding IsListed
  snoc-IsListed archetype [] entry h new there = (refl, there, tt)
  snoc-IsListed archetype (x ∷ xs) entry h new there =
      elim (Bool-cases (x.component_id == entry.component_id)) [
        | inl same ↦ let no : true ≡ false = rw same at new in absurd cc
        | inr other ↦
            let turned : (entry.component_id == x.component_id) ≡ false = ground (arith, other) in
            (
              any-snoc x.component_id xs entry h.0 turned,
              h.1,
              snoc-IsListed archetype xs entry h.2 (rw other at new) there,
            )
      ]

  any-lookup :
      (id : ℕ) (components : List (ReplicatedComponent Storage))
      → ((any (λ c. c.component_id == id) components ≡ false)
          × (lookup id (fns_of components) ≡ none))
        ⊎ ((any (λ c. c.component_id == id) components ≡ true)
            × ((f : ℕ) × (lookup id (fns_of components) ≡ some f)))
  unfolding lookup
  any-lookup id [] = inl (refl, refl)
  any-lookup id (c ∷ rest) = elim (Bool-cases (c.component_id == id)) [
    | inl same ↦ rw same (inr (refl, (c.fns_id, refl)))
    | inr different ↦ rw different (any-lookup id rest)
  ]

  fns_of-append :
      (xs ys : List (ReplicatedComponent Storage)) → fns_of (xs ++ ys) ≡ fns_of xs ++ fns_of ys
  fns_of-append [] ys = refl
  fns_of-append (x ∷ xs) ys =
      ap (λ (l : List (ℕ × ℕ)). (x.component_id, x.fns_id) ∷ l) (fns_of-append xs ys)

  module _ (archetype : Archetype Storage) where
    storage-there :
        (o : Option Storage) → is_there o ≡ true → (storage : Storage) × (o ≡ some storage)
    storage-there none h = absurd cc
    storage-there (some storage) h = (storage, refl)

    -- An entry for a component that has one already changes nothing.
    lookup-known :
        (id k v : ℕ) (xs cs : List (ℕ × ℕ)) (f : ℕ)
        → lookup k xs ≡ some f
        → or_else (lookup id xs) (lookup id ((k, v) ∷ cs)) ≡ or_else (lookup id xs) (lookup id cs)
    unfolding lookup
    lookup-known id k v xs cs f known = elim (Bool-cases (k == id)) [
      | inl same ↦
          let e : k ≡ id = ==→eq k id same in
          let here : lookup id xs ≡ some f = subst (λ j. lookup j xs ≡ some f) e known in
          rw here refl
      | inr different ↦ rw different refl
    ]

    add_components-lookup :
        (cs : List (ℕ × ℕ)) (components : List (ReplicatedComponent Storage))
        → all (λ c. has_component archetype c.0) cs ≡ true
        → IsListed archetype components
        → (after : List (ReplicatedComponent Storage)) × (add_components archetype components cs
            ≡ ok after)
          × IsListed archetype after
          × ((id : ℕ)
              → lookup id (fns_of after) ≡ or_else (lookup id (fns_of components)) (lookup id cs))
    unfolding add_components
    add_components-lookup [] components h listed = (
      components,
      refl,
      listed,
      λ id. unfold lookup in sym (or_else-none (lookup id (fns_of components))),
    )
    add_components-lookup ((k, v) ∷ cs) components h listed = elim (any-lookup k components) [
      | inl (new_one, absent) ↦
          let (storage, there) = storage-there (archetype.storage_type k) (ground (arith, h)) in
          let entry : ReplicatedComponent Storage = record {
            component_id = k;
            storage = storage;
            fns_id = v;
          } in
          let (after, run, still, same) =
            add_components-lookup cs (components ++ (entry ∷ [])) (ground (arith, h))
              (snoc-IsListed archetype components entry listed new_one there) in
          (
            after,
            rw (new_one, there) run,
            still,
            λ id.
                same id
                ∙ rw
                    (
                      fns_of-append components (entry ∷ []),
                      lookup-append id (fns_of components) ((k, v) ∷ []),
                    )
                    (or_else_assoc (lookup id (fns_of components)) (lookup id ((k, v) ∷ []))
                        (lookup id cs)
                      ∙ ap (or_else (lookup id (fns_of components)))
                          (sym (lookup-append id ((k, v) ∷ []) cs))),
          )
      | inr (known, (f, there)) ↦
          let (after, run, still, same) =
            add_components-lookup cs components (ground (arith, h)) listed in
          (
            after,
            rw known run,
            still,
            λ id. same id ∙ sym (lookup-known id k v (fns_of components) cs f there),
          )
    ]

    -- Collecting the components of an archetype reads the storage of no component that it does not have,
    -- and each component has the functions of the first rule of the list that matches the archetype and
    -- names it; it is left out where there is none.
    pub add_rules-lookup :
        (rules : List ReplicationRule) (components : List (ReplicatedComponent Storage))
        → IsListed archetype components
        → (after : List (ReplicatedComponent Storage)) × (add_rules archetype components rules
            ≡ ok after)
          × IsListed archetype after
          × ((id : ℕ)
              → lookup id (fns_of after)
                ≡ or_else
                    (lookup id (fns_of components))
                    (first_matching (has_component archetype) rules id))
    unfolding add_rules first_matching
    add_rules-lookup [] components listed =
        (components, refl, listed, λ id. sym (or_else-none (lookup id (fns_of components))))
    add_rules-lookup (rule ∷ rules) components listed =
        elim (Bool-cases (matches (has_component archetype) rule)) [
          | inl matched ↦
              let (more, run, some_listed, same) =
                add_components-lookup rule.components components (unfold matches in matched)
                  listed in
              let (after, run', all_listed, same') = add_rules-lookup rules more some_listed in
              (
                after,
                rw (matched, run) run',
                all_listed,
                λ id.
                    same' id
                    ∙ rw (matched, same id)
                        (or_else_assoc (lookup id (fns_of components)) (lookup id rule.components)
                          (first_matching (has_component archetype) rules id)),
              )
          | inr unmatched ↦
              let (after, run, all_listed, same) = add_rules-lookup rules components listed in
              (after, rw unmatched run, all_listed, λ id. same id ∙ rw unmatched refl)
        ]
