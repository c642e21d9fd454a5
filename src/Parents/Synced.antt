-- ===== src/Parents/Synced.antt =====
-- parent_sync.rs: after `sync_hierarchy`, the parents are those that `ParentSync` has.
use bevy_mod_replication.Common.{
  ℕ, ◌≡◌, refl, sym, ap, ◌∙◌, false, Option, none, some, List, [], ◌∷◌, ◌++◌, map, ◌==◌,
  if◌then◌else◌, Bool-cases, inl, inr, ==→eq, ==_self, subst, ◌⊎◌,
}
use bevy_mod_replication.Common.Maps.{contains}
use bevy_mod_replication.Parents.{
  Command, Hierarchy, IsHierarchy, apply, sync_entity, sync_hierarchy, ParentSync, store_changes,
  map_entities,
}

apply-append :
    {World : Type 0} (h : Hierarchy World) (w : World) (xs ys : List Command)
    → apply h w (xs ++ ys) ≡ apply h (apply h w xs) ys
unfolding apply
apply-append h w [] ys = refl
apply-append h w (Command.set_parent e p ∷ xs) ys = apply-append h (h.set_parent w e p) xs ys
apply-append h w (Command.remove_parent e ∷ xs) ys = apply-append h (h.remove_parent w e) xs ys

module _ {World : Type 0} (h : Hierarchy World) (laws : IsHierarchy h) where
  -- The commands of another entity leave the parent.
  sync_entity_other :
      (w : World) (entity e : ℕ) (stored parent : Option ℕ)
      → (entity == e) ≡ false
      → h.parent (apply h w (sync_entity entity stored parent)) e ≡ h.parent w e
  unfolding apply sync_entity
  sync_entity_other w entity e (some a) none other =
      laws.set_parent-parent w entity a e ∙ rw other refl
  sync_entity_other w entity e (some a) (some p) other = elim (Bool-cases (p == a)) [
    | inl same ↦ rw same refl
    | inr different ↦ rw different (laws.set_parent-parent w entity a e ∙ rw other refl)
  ]
  sync_entity_other w entity e none (some p) other =
      laws.remove_parent-parent w entity e ∙ rw other refl
  sync_entity_other w entity e none none other = refl

  -- The commands of an entity give it the parent that is stored, from any parent but one that neither
  -- is stored nor was read.
  sync_entity_stored :
      (w : World) (entity : ℕ) (stored parent : Option ℕ)
      → (h.parent w entity ≡ stored) ⊎ (h.parent w entity ≡ parent)
      → h.parent (apply h w (sync_entity entity stored parent)) entity ≡ stored
  unfolding apply sync_entity
  sync_entity_stored w entity (some a) none now =
      laws.set_parent-parent w entity a entity ∙ rw (==_self entity) refl
  sync_entity_stored w entity (some a) (some p) now = elim (Bool-cases (p == a)) [
    | inl same ↦
        rw same (elim now [ inl stored ↦ stored | inr read ↦ read ∙ ap some (==→eq p a same) ])
    | inr different ↦
        rw different (laws.set_parent-parent w entity a entity ∙ rw (==_self entity) refl)
  ]
  sync_entity_stored w entity none (some p) now =
      laws.remove_parent-parent w entity entity ∙ rw (==_self entity) refl
  sync_entity_stored w entity none none now = elim now [ inl stored ↦ stored | inr read ↦ read ]

  synced :
      (stored parent : ℕ → Option ℕ) (e : ℕ) (entities : List ℕ) (w : World)
      → h.parent w e ≡ stored e
      → h.parent
          (apply h w
            (sync_hierarchy (map (λ entity. (entity, stored entity, parent entity)) entities)))
          e
        ≡ stored e
  unfolding apply sync_hierarchy
  synced stored parent e [] w now = now
  synced stored parent e (entity ∷ entities) w now =
      let commands = sync_entity entity (stored entity) (parent entity) in
      ap (λ v. h.parent v e) (apply-append h w commands _)
      ∙ synced stored parent e entities (apply h w commands) (elim (Bool-cases (entity == e)) [
        | inl same ↦
            subst (λ n. h.parent (apply h w (sync_entity n (stored n) (parent n))) e ≡ stored e)
              (sym (==→eq entity e same)) (sync_entity_stored w e (stored e) (parent e) (inl now))
        | inr other ↦ sync_entity_other w entity e (stored entity) (parent entity) other ∙ now
      ])

  synced_from :
      (stored parent : ℕ → Option ℕ) (e : ℕ) (entities : List ℕ) (w : World)
      → h.parent w e ≡ parent e
      → h.parent
          (apply h w
            (sync_hierarchy (map (λ entity. (entity, stored entity, parent entity)) entities)))
          e
        ≡ (if contains e entities then stored e else parent e)
  unfolding apply sync_hierarchy contains
  synced_from stored parent e [] w now = now
  synced_from stored parent e (entity ∷ entities) w now =
      let commands = sync_entity entity (stored entity) (parent entity) in
      ap (λ v. h.parent v e) (apply-append h w commands _) ∙ elim (Bool-cases (entity == e)) [
        | inl same ↦ rw same (
            synced stored parent e entities (apply h w commands) (
              subst (λ n. h.parent (apply h w (sync_entity n (stored n) (parent n))) e ≡ stored e)
                (sym (==→eq entity e same))
                (sync_entity_stored w e (stored e) (parent e) (inr now))))
        | inr other ↦ rw other (
            synced_from stored parent e entities (apply h w commands)
              (sync_entity_other w entity e (stored entity) (parent entity) other ∙ now))
      ]

-- After the commands of `sync_hierarchy`, an entity whose `ParentSync` changed has the parent that
-- it stores, or none where it stores none, and every other entity has the parent that it had. `changed`
-- lists the entities whose `ParentSync` changed, in any order and with repetitions; the engine's
-- commands do what it documents.
pub sync_hierarchy-parent :
    {World : Type 0} (h : Hierarchy World)
    → IsHierarchy h
    → (w : World) (stored : ℕ → Option ℕ) (changed : List ℕ) (e : ℕ)
    → h.parent
        (apply h w
          (sync_hierarchy (map (λ entity. (entity, stored entity, h.parent w entity)) changed)))
        e
      ≡ (if contains e changed then stored e else h.parent w e)
sync_hierarchy-parent h laws w stored changed e =
    synced_from h laws stored (h.parent w) e changed w refl

map_entities-parent :
    (map_entity : ℕ → ℕ) (s : ParentSync) (parent : ℕ)
    → s.parent ≡ some parent
    → (map_entities map_entity s).parent ≡ some (map_entity parent)
unfolding map_entities
map_entities-parent map_entity s parent stored = rw stored refl

-- What `store_changes` stores, mapped to the entities of a client, is the mapped parent of the server,
-- where `set_if_neq` leaves the component with the given value.
pub store_changes-map_entities :
    (set_if_neq : ParentSync → ParentSync → ParentSync)
    → ((s t : ParentSync) → set_if_neq s t ≡ t)
    → (map_entity : ℕ → ℕ) (hierarchy : List (ℕ × ParentSync))
    → map (λ s. (map_entities map_entity s).parent) (store_changes set_if_neq hierarchy)
      ≡ map (λ row. some (map_entity row.0)) hierarchy
unfolding store_changes
store_changes-map_entities set_if_neq sets map_entity [] = refl
store_changes-map_entities set_if_neq sets map_entity ((parent, s) ∷ rest) =
    ap
      (λ tail.
        (map_entities map_entity (set_if_neq s (record { parent = some parent }))).parent ∷ tail)
      (store_changes-map_entities set_if_neq sets map_entity rest)
    ∙ ap (λ head. head ∷ map (λ row. some (map_entity row.0)) rest)
        (map_entities-parent map_entity (set_if_neq s (record { parent = some parent })) parent
          (ap (λ t. t.parent) (sets s (record { parent = some parent }))))
