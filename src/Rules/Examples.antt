-- ===== src/Rules/Examples.antt =====
-- Two rules: their removals, and the archetypes that match them.
use bevy_mod_replication.Common.{
  ℕ, ◌≡◌, refl, Bool, none, some, List, [], ◌∷◌, ◌==◌, if◌then◌else◌, ok, arith,
}
use bevy_mod_replication.Common.Maps.{lookup}
use bevy_mod_replication.Rules.{ReplicationRule, collect_ids, matches}
use bevy_mod_replication.Rules.Archetypes.{Archetype, ReplicatedArchetypes, update}
use bevy_mod_replication.Rules.Matching.{first_matching, IsListed}
use bevy_mod_replication.Rules.Current.{IsCurrent, AllMatch, update-IsCurrent}
use bevy_mod_replication.Rules.Distinct.{AreRemoved}
use bevy_mod_replication.Rules.Removals.{first_fns, collect_ids-lookup}

-- A group of two components, and one of them by itself.
abbrev rules : List ReplicationRule
rules =
    record { priority = 2; components = (1, 10) ∷ (2, 20) ∷ [] }
    ∷ record { priority = 1; components = (1, 11) ∷ [] }
    ∷ []

abbrev only_second : ℕ → Bool
only_second id = id == 2

-- The first component is removed: by itself and as a part of the group.
collect_ids-lookup_example :
    AreRemoved only_second (collect_ids only_second (1 ∷ []) rules [])
    × ((id : ℕ)
        → lookup id (collect_ids only_second (1 ∷ []) rules [])
          ≡ (if only_second id then none else first_fns only_second (1 ∷ []) rules id))
collect_ids-lookup_example = collect_ids-lookup only_second (1 ∷ []) rules

-- Two archetypes, of which the second is new.
abbrev first_archetype : Archetype ℕ
first_archetype = record { id = 0; storage_type = λ id. if id == 2 then none else some 0 }

abbrev second_archetype : Archetype ℕ
second_archetype = record { id = 1; storage_type = λ id. some 0 }

abbrev view : ReplicatedArchetypes ℕ
view = record {
  marker_id = 0;
  generation = 1;
  archetypes =
      record { id = 0; components = record { component_id = 1; storage = 0; fns_id = 11 } ∷ [] }
      ∷ [];
}

view-IsCurrent : IsCurrent rules (first_archetype ∷ []) view
unfolding IsCurrent AllMatch IsListed lookup first_matching matches
view-IsCurrent = (refl, ((refl, (refl, refl, tt), λ id. ground arith), tt))

update-IsCurrent_example :
    (view' : ReplicatedArchetypes ℕ) × (update view (first_archetype ∷ second_archetype ∷ []) rules
      ≡ ok view')
    × (view'.marker_id ≡ view.marker_id)
    × IsCurrent rules (first_archetype ∷ second_archetype ∷ []) view'
update-IsCurrent_example =
    update-IsCurrent rules (first_archetype ∷ []) (second_archetype ∷ []) view view-IsCurrent
