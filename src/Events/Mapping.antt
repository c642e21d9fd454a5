-- ===== src/Events/Mapping.antt =====
-- core/event/ctx.rs and core/event/server_event.rs: the entities of an event on the client.
-- `MapEntities` of the engine is an argument; its law says that each entity goes through the mapper.
use bevy_mod_replication.Common.{
  ℕ, ◌≡◌, refl, Bool, true, false, not, Option, none, some, List, [], ◌∷◌, ◌++◌, map, retain, all,
  if◌then◌else◌, append-nil, append_assoc, Bool-cases, Option-cases, inl, inr,
}
use bevy_mod_replication.EntityMap.{ServerEntityMap, to_client}
use bevy_mod_replication.Backend.Server.{Bytes}
use bevy_mod_replication.Wire.{value, error, Reader}
use bevy_mod_replication.Events.Queue.{
  ServerEvent, map_entity, map_found, map_decoded, default_deserialize_mapped, check_entities,
  deserialize,
}

abbrev pub Mapper : Type 0
Mapper = List ℕ → ℕ → List ℕ × ℕ

-- The entities in turn through the mapper.
unfoldable pub through : Mapper → List ℕ → List ℕ → List ℕ × List ℕ
through mapper invalid [] = (invalid, [])
through mapper invalid (entity ∷ rest) =
    let one = mapper invalid entity in
    let others = through mapper one.0 rest in (others.0, one.1 ∷ others.1)

abbrev is_there : Option ℕ → Bool
is_there none = false
is_there (some mapped) = true

abbrev or_else : ℕ → Option ℕ → ℕ
or_else placeholder none = placeholder
or_else placeholder (some mapped) = mapped

abbrev has_client : ServerEntityMap → ℕ → Bool
has_client entity_map entity = is_there (to_client entity_map entity)

abbrev pub client_of : ℕ → ServerEntityMap → ℕ → ℕ
client_of placeholder entity_map entity = or_else placeholder (to_client entity_map entity)

-- Every entity of the list has a mapping.
unfoldable pub is_mapped : ServerEntityMap → List ℕ → Bool
is_mapped entity_map entities = all (has_client entity_map) entities

module _ (placeholder : ℕ) (entity_map : ServerEntityMap) where
  abbrev unmapped : List ℕ → List ℕ
  unmapped entities = retain (λ entity. not (has_client entity_map entity)) entities

  through-map_entity :
      (entities invalid : List ℕ)
      → through (map_entity placeholder entity_map) invalid entities
        ≡ (invalid ++ unmapped entities, map (client_of placeholder entity_map) entities)
  unfolding through map_entity map_found
  through-map_entity [] invalid = rw (append-nil invalid) refl
  through-map_entity (entity ∷ rest) invalid = elim (Option-cases (to_client entity_map entity)) [
    | inl gone ↦
        rw
          (
            gone,
            through-map_entity rest (invalid ++ (entity ∷ [])),
            append_assoc invalid (entity ∷ []) (unmapped rest),
          )
          refl
    | inr (mapped, there) ↦ rw (there, through-map_entity rest invalid) refl
  ]

  unmapped-cases :
      {E : Type 0} (entities : List ℕ) (event : E) (rest : Bytes)
      → check_entities (unmapped entities, value event rest)
        ≡ (if is_mapped entity_map entities then ([], value event rest) else ([], error))
  unfolding check_entities is_mapped
  unmapped-cases [] event rest = refl
  unmapped-cases (entity ∷ entities) event rest = elim (Bool-cases (has_client entity_map entity)) [
    | inl there ↦ rw there (unmapped-cases entities event rest)
    | inr gone ↦ rw gone refl
  ]

  -- With a mapping function that takes each entity of an event through the mapper: an event that is
  -- read is delivered with the client's entities where all of its entities have a mapping, and is an error
  -- otherwise, so that no event is applied with a placeholder. Either way the context is left
  -- without entities, so that the next event is judged by itself.
  pub deserialize-is_mapped :
      {E : Type 0} (event_data : ServerEvent E) (map_entities : Mapper → List ℕ → E → List ℕ × E)
      (read_event : Reader E) (entities : E → List ℕ) (rebuild : List ℕ → E → E)
      → ((mapper : Mapper) (invalid : List ℕ) (event : E)
          → map_entities mapper invalid event ≡ (
            (through mapper invalid (entities event)).0,
            rebuild (through mapper invalid (entities event)).1 event,
          ))
      → event_data.deserialize ≡ default_deserialize_mapped map_entities read_event placeholder
      → (message rest : Bytes) (event : E) → read_event message ≡ value event rest
      → deserialize event_data entity_map [] message ≡ (
          if is_mapped entity_map (entities event)
          then (
            [],
            value (rebuild (map (client_of placeholder entity_map) (entities event)) event) rest,
          )
          else ([], error))
  unfolding deserialize default_deserialize_mapped map_decoded
  deserialize-is_mapped event_data map_entities read_event entities rebuild each registered message
        rest event reads =
      rw
        (
          registered,
          reads,
          each (map_entity placeholder entity_map) [] event,
          through-map_entity (entities event) [],
        )
        (unmapped-cases (entities event)
          (rebuild (map (client_of placeholder entity_map) (entities event)) event) rest)
