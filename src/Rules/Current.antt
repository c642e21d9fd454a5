-- ===== src/Rules/Current.antt =====
-- server/replicated_archetypes.rs: the view of the world's archetypes that `update` keeps.
use bevy_mod_replication.Common.{
  ℕ, ◌≡◌, refl, ap, ◌∙◌, Bool, List, [], ◌∷◌, ◌++◌, length, drop, retain, ok, Bool-cases, inl, inr,
  append_assoc, append-nil, drop-append_all,
}
use bevy_mod_replication.Common.Maps.{lookup}
use bevy_mod_replication.Rules.{ReplicationRule}
use bevy_mod_replication.Rules.Archetypes.{
  Archetype, ReplicatedArchetype, ReplicatedArchetypes, has_component, add_archetypes, update, new,
}
use bevy_mod_replication.Rules.Matching.{first_matching, fns_of, IsListed, add_rules-lookup}

module _ {Storage : Type 0} (rules : List ReplicationRule) where
  -- One archetype: each component is there once, with its storage and the functions of the first
  -- matching rule.
  abbrev pub IsMatch : Archetype Storage → ReplicatedArchetype Storage → Type 0
  IsMatch archetype replicated =
      (replicated.id ≡ archetype.id)
      × IsListed archetype replicated.components
      × ((id : ℕ)
          → lookup id (fns_of replicated.components)
            ≡ first_matching (has_component archetype) rules id)

  unfoldable pub AllMatch : List (Archetype Storage) → List (ReplicatedArchetype Storage) → Type 0
  AllMatch [] [] = Unit
  AllMatch [] (r ∷ rs) = ⊥
  AllMatch (a ∷ as_) [] = ⊥
  AllMatch (a ∷ as_) (r ∷ rs) = IsMatch a r × AllMatch as_ rs

  -- The archetypes of the world with the marker, in their order, and up to date.
  unfoldable pub IsCurrent : List (Archetype Storage) → ReplicatedArchetypes Storage → Type 0
  IsCurrent world view =
      (view.generation ≡ length world)
      × AllMatch (retain (λ a. has_component a view.marker_id) world) view.archetypes

  AllMatch-append :
      (as_ bs : List (Archetype Storage)) (rs ss : List (ReplicatedArchetype Storage))
      → AllMatch as_ rs
      → AllMatch bs ss
      → AllMatch (as_ ++ bs) (rs ++ ss)
  unfolding AllMatch
  AllMatch-append [] bs [] ss h k = k
  AllMatch-append [] bs (r ∷ rs) ss h k = absurd h
  AllMatch-append (a ∷ as_) bs [] ss h k = absurd h
  AllMatch-append (a ∷ as_) bs (r ∷ rs) ss h k = (h.0, AllMatch-append as_ bs rs ss h.1 k)

  retain-append :
      (p : Archetype Storage → Bool) (xs ys : List (Archetype Storage))
      → retain p (xs ++ ys) ≡ retain p xs ++ retain p ys
  retain-append p [] ys = refl
  retain-append p (x ∷ xs) ys = elim (Bool-cases (p x)) [
    | inl kept ↦ rw (kept, retain-append p xs ys) refl
    | inr out ↦ rw (out, retain-append p xs ys) refl
  ]

  add_archetypes-AllMatch :
      (marker_id : ℕ) (world : List (Archetype Storage))
      (before : List (ReplicatedArchetype Storage))
      → (fresh : List (ReplicatedArchetype Storage)) × (add_archetypes marker_id rules before world
          ≡ ok (before ++ fresh))
        × AllMatch (retain (λ a. has_component a marker_id) world) fresh
  unfolding add_archetypes AllMatch new
  add_archetypes-AllMatch marker_id [] before = ([], rw (append-nil before) refl, tt)
  add_archetypes-AllMatch marker_id (a ∷ rest) before =
      elim (Bool-cases (has_component a marker_id)) [
        | inl marked ↦
            let (components, run, listed, same) =
              add_rules-lookup a rules [] (unfold IsListed in tt) in
            let r : ReplicatedArchetype Storage = record { id = a.id; components = components } in
            let (fresh, run', all) = add_archetypes-AllMatch marker_id rest (before ++ (r ∷ [])) in
            (
              r ∷ fresh,
              rw (marked, run) (run' ∙ ap (λ rs. ok rs) (append_assoc before (r ∷ []) fresh)),
              rw marked ((refl, listed, unfold lookup in same), all),
            )
        | inr unmarked ↦
            let (fresh, run, all) = add_archetypes-AllMatch marker_id rest before in
            (fresh, rw unmarked run, rw unmarked all)
      ]

  -- Where the view is current for a world, so is it after an update for a world that has more
  -- archetypes behind those: the update reads the storage of no component that an archetype does not have, it
  -- looks at the new archetypes only, and yet the view has every archetype with the marker once, in
  -- order, and each of its components once, with its storage and the functions of the first rule of the
  -- list that matches the archetype and names the component; it has no component that no such rule names.
  pub update-IsCurrent :
      (world more : List (Archetype Storage)) (view : ReplicatedArchetypes Storage)
      → IsCurrent world view
      → (view' : ReplicatedArchetypes Storage) × (update view (world ++ more) rules ≡ ok view')
        × (view'.marker_id ≡ view.marker_id)
        × IsCurrent (world ++ more) view'
  unfolding update IsCurrent
  update-IsCurrent world more view (upto, all) =
      let (fresh, run, matched) = add_archetypes-AllMatch view.marker_id more view.archetypes in
      let new_ones : drop view.generation (world ++ more) ≡ more =
        rw upto (drop-append_all world more) in
      (
        record view { generation = length (world ++ more); archetypes = view.archetypes ++ fresh },
        rw (new_ones, run) refl,
        refl,
        (
          refl,
          rw (retain-append (λ a. has_component a view.marker_id) world more)
              (AllMatch-append _ _ view.archetypes fresh all matched),
        ),
      )
