-- ===== src/EntityMap/Examples.antt =====
-- core/server_entity_map.rs: the theorems at inputs.
use bevy_mod_replication.Common.{◌≡◌, refl, none, some, if◌then◌else◌, ◌==◌, ℕ, Returns, panic}
use bevy_mod_replication.Common.Maps.{lookup, insert as map_insert}
use bevy_mod_replication.EntityMap.{
  ServerEntityMap, empty, link, insert, get_by_server_or_insert, remove_by_server, remove_by_client,
  to_client, to_server,
}
use bevy_mod_replication.EntityMap.Invariant.{
  IsInverse, empty-IsInverse, link-IsInverse, insert-IsInverse, remove-IsInverse,
}

-- A remapping panics, and a duplicate does not.
remap :
    (insert (link empty 1 7) 1 8 ≡ panic)
    × (to_client (get_by_server_or_insert (link empty 1 7) 1 9).0 1 ≡ some 7)
unfolding insert link empty lookup map_insert get_by_server_or_insert to_client
remap = (refl, refl)

-- One pair of entities.
abbrev paired : ServerEntityMap
paired = link empty 1 7

paired-IsInverse : IsInverse paired
paired-IsInverse =
    link-IsInverse empty 1 7 empty-IsInverse
      (unfold empty to_client to_server lookup in (λ d e. cc, λ t e. cc))

-- The pair that is there already.
insert-IsInverse_example : Returns (insert paired 1 7) λ m'.
    IsInverse m'
    × ((t : ℕ) → to_client m' t ≡ (if 1 == t then some 7 else to_client paired t))
    × ((d : ℕ) → to_server m' d ≡ (if 7 == d then some 1 else to_server paired d))
insert-IsInverse_example =
    insert-IsInverse paired 1 7 paired-IsInverse
      (unfold empty link to_client to_server lookup map_insert in (λ d e. cc, λ t e. cc))

-- The removal of the pair, by either entity.
remove-IsInverse_example :
    IsInverse (remove_by_server paired 1).0
    × ((remove_by_server paired 1).1 ≡ some 7)
    × ((t : ℕ)
        → to_client (remove_by_server paired 1).0 t ≡ (if 1 == t then none else to_client paired t))
    × IsInverse (remove_by_client paired 7).0
    × ((remove_by_client paired 7).1 ≡ some 1)
    × ((d : ℕ)
        → to_server (remove_by_client paired 7).0 d ≡ (if 7 == d then none else to_server paired d))
unfolding empty link to_client to_server lookup map_insert
remove-IsInverse_example = remove-IsInverse paired 1 7 paired-IsInverse
