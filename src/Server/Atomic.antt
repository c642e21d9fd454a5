-- ===== src/Server/Atomic.antt =====
-- server.rs: `collect_changes` puts what it has of an entity for a client into one message.
use bevy_mod_replication.Common.{
  ℕ, ◌≡◌, refl, sym, ap, ◌∙◌, true, false, some, List, [], ◌∷◌, ◌++◌, ok, ◌⊎◌, Bool-cases,
  Option-cases, inl, inr,
}
use mathlib.Core.Bool.{false≢true}
use bevy_mod_replication.Wire.{Wire}
use bevy_mod_replication.Messages.{Range, write_entity, write_component}
use bevy_mod_replication.Messages.Changes.{ComponentChanges, add_component}
use bevy_mod_replication.Messages.Mutate.{
  MutateMessage, add_mutated_entity, add_mutated_component, change_last, last_of, pop_last,
}
use bevy_mod_replication.Messages.Update.{UpdateMessage, add_changed_entity, add_inserted_component}
use bevy_mod_replication.Server.Collect.{
  Recipient, ComponentData, EntityData, Written, is_hidden, collect_since, or_write,
  write_entity_cached, write_component_cached, mutations_since, collect_mutation, collect_insertion,
  collect_for,
}

module _ {A : Type 0} where
  pub change_last-append :
      (f : A → A) (xs : List A) (a : A) → change_last f (xs ++ (a ∷ [])) ≡ ok (xs ++ (f a ∷ []))
  unfolding change_last
  change_last-append f [] a = refl
  change_last-append f (x ∷ []) a = refl
  change_last-append f (x ∷ y ∷ xs) a = rw (change_last-append f (y ∷ xs) a, change_last) refl

  pub last_of-append : (xs : List A) (a : A) → last_of (xs ++ (a ∷ [])) ≡ some a
  unfolding last_of
  last_of-append [] a = refl
  last_of-append (x ∷ []) a = refl
  last_of-append (x ∷ y ∷ xs) a = last_of-append (y ∷ xs) a

  pub pop_last-append : (xs : List A) (a : A) → pop_last (xs ++ (a ∷ [])) ≡ xs
  unfolding pop_last
  pop_last-append [] a = refl
  pop_last-append (x ∷ []) a = refl
  pop_last-append (x ∷ y ∷ xs) a = ap (λ (zs : List A). x ∷ zs) (pop_last-append (y ∷ xs) a)

-- The entity's range, once it is written, stays.
abbrev pub Grows : Written → Written → Type 0
Grows s s' = (range : Range) → s.entity_range ≡ some range → s'.entity_range ≡ some range

-- While an entity is collected, from `before`: its change in the update message, if there is one, is
-- the last, and so are its mutations in the mutate message, both for the range that is cached.
abbrev pub UpdatePhase : Written → UpdateMessage → UpdateMessage → Type 0
UpdatePhase s before m =
    ((m.entity_written ≡ false) × (m.changes ≡ before.changes))
    ⊎ ((m.entity_written ≡ true)
        × (change : ComponentChanges) × (m.changes ≡ before.changes ++ (change ∷ []))
        × (s.entity_range ≡ some change.entity))

abbrev pub MutatePhase : Written → MutateMessage → MutateMessage → Type 0
MutatePhase s before m =
    ((m.mutations_written ≡ false)
      × (m.mutations ≡ before.mutations)
      × (m.entities ≡ before.entities))
    ⊎ ((m.mutations_written ≡ true)
        × (change : ComponentChanges) × (entity : ℕ) × (m.mutations
            ≡ before.mutations ++ (change ∷ []))
        × (m.entities ≡ before.entities ++ (entity ∷ []))
        × (s.entity_range ≡ some change.entity))

unfoldable pub Phase : Written → Recipient → Recipient → Type 0
Phase s before r =
    UpdatePhase s before.update_message r.update_message
    × MutatePhase s before.mutate_message r.mutate_message
    × (is_hidden r.update_message.entity_visibility ≡ true
        → r.update_message.entity_written ≡ false)

update_later :
    (s s' : Written) (before m : UpdateMessage)
    → Grows s s'
    → UpdatePhase s before m
    → UpdatePhase s' before m
update_later s s' before m grows (inl h) = inl h
update_later s s' before m grows (inr (w, change, e, cached)) =
    inr (w, change, e, grows change.entity cached)

mutate_later :
    (s s' : Written) (before m : MutateMessage)
    → Grows s s'
    → MutatePhase s before m
    → MutatePhase s' before m
mutate_later s s' before m grows (inl h) = inl h
mutate_later s s' before m grows (inr (w, change, entity, e, e', cached)) =
    inr (w, change, entity, e, e', grows change.entity cached)

pub Phase-later :
    (s s' : Written) (before r : Recipient) → Grows s s' → Phase s before r → Phase s' before r
unfolding Phase
Phase-later s s' before r grows h = (
  update_later s s' before.update_message r.update_message grows h.0,
  mutate_later s s' before.mutate_message r.mutate_message grows h.1,
  h.2,
)

module _ {Component : Type 0} (w : Wire Component) where
  pub write_entity_cached-Grows :
      (s : Written) (entity : ℕ)
      → (s' : Written) × (range : Range) × (write_entity_cached w s entity ≡ (s', range))
        × (s'.entity_range ≡ some range)
        × Grows s s'
  unfolding write_entity_cached or_write
  write_entity_cached-Grows s entity =
      let written = write_entity w s.serialized entity in
      let fresh : Written × Range =
        (record s { serialized = written.0; entity_range = some written.1 }, written.1) in
      elim (Option-cases s.entity_range) [
        | inl first ↦
            (fresh.0, fresh.1, ap (λ o. or_write s o fresh) first, refl, λ range e. absurd cc)
        | inr (range, there) ↦ (s, range, ap (λ o. or_write s o fresh) there, there, λ r e. e)
      ]

  write_component_cached-entity_range :
      (s : Written) (c : ComponentData Component)
      → (s' : Written) × (range : Range) × (write_component_cached w s c ≡ (s', range))
        × (s'.entity_range ≡ s.entity_range)
  unfolding write_component_cached or_write
  write_component_cached-entity_range s c =
      let written = write_component w s.serialized (c.fns_id, c.value) in
      let fresh : Written × Range =
        (record s { serialized = written.0; component_range = some written.1 }, written.1) in
      elim (Option-cases s.component_range) [
        | inl first ↦ (fresh.0, fresh.1, ap (λ o. or_write s o fresh) first, refl)
        | inr (range, there) ↦ (s, range, ap (λ o. or_write s o fresh) there, refl)
      ]

  -- A mutation, and an insertion.
  collect_mutation-Phase :
      (d : EntityData Component) (c : ComponentData Component) (s : Written) (before r : Recipient)
      → Phase s before r
      → (s' : Written) × (r' : Recipient) × (collect_mutation w d c s r ≡ ok (s', r'))
        × Grows s s'
        × Phase s' before r'
  unfolding collect_mutation Phase add_mutated_entity add_mutated_component add_component
  collect_mutation-Phase d c s before r (update, inl (unwritten, same, same'), hidden) =
      let (s₁, range, named, cached, grows) = write_entity_cached-Grows s d.entity in
      let (s₂, component, put, kept) = write_component_cached-entity_range s₁ c in
      let later : Grows s s₂ = λ x e. kept ∙ grows x e in
      let change : ComponentChanges = record {
        entity = range;
        components_len = 0;
        components = [];
      } in
      (
        s₂,
        record r {
          mutate_message = record {
            entities = r.mutate_message.entities ++ (d.entity ∷ []);
            mutations = r.mutate_message.mutations ++ (add_component change component ∷ []);
            mutations_written = true;
          };
        },
        rw
            (
              unwritten,
              named,
              put,
              change_last-append (λ x. add_component x component) r.mutate_message.mutations change,
            )
            refl,
        later,
        (
          update_later s s₂ before.update_message r.update_message later update,
          inr (
            refl,
            add_component change component,
            d.entity,
            ap (λ (xs : List ComponentChanges). xs ++ (add_component change component ∷ [])) same,
            ap (λ (xs : List ℕ). xs ++ (d.entity ∷ [])) same',
            kept ∙ cached,
          ),
          hidden,
        ),
      )
  collect_mutation-Phase d c s before r
        (update, inr (written, change, entity, e, e', cached), hidden) =
      let (s₂, component, put, kept) = write_component_cached-entity_range s c in
      let later : Grows s s₂ = λ x e₂. kept ∙ e₂ in
      let changed : List ComponentChanges =
        before.mutate_message.mutations ++ (add_component change component ∷ []) in
      let added : change_last (λ x. add_component x component) r.mutate_message.mutations
          ≡ ok changed =
        ap (change_last (λ x. add_component x component)) e
        ∙ change_last-append (λ x. add_component x component) before.mutate_message.mutations
            change in
      (
        s₂,
        record r { mutate_message = record r.mutate_message { mutations = changed } },
        rw (written, put, added) refl,
        later,
        (
          update_later s s₂ before.update_message r.update_message later update,
          inr (written, add_component change component, entity, refl, e', kept ∙ cached),
          hidden,
        ),
      )

  collect_insertion-Phase :
      (d : EntityData Component) (c : ComponentData Component) (s : Written) (before r : Recipient)
      → is_hidden r.update_message.entity_visibility ≡ false
      → Phase s before r
      → (s' : Written) × (r' : Recipient) × (collect_insertion w d c s r ≡ ok (s', r'))
        × Grows s s'
        × Phase s' before r'
  unfolding collect_insertion Phase add_changed_entity add_inserted_component add_component
  collect_insertion-Phase d c s before r seen (inl (unwritten, same), mutate, hidden) =
      let (s₁, range, named, cached, grows) = write_entity_cached-Grows s d.entity in
      let (s₂, component, put, kept) = write_component_cached-entity_range s₁ c in
      let later : Grows s s₂ = λ x e. kept ∙ grows x e in
      let change : ComponentChanges = record {
        entity = range;
        components_len = 0;
        components = [];
      } in
      (
        s₂,
        record r {
          update_message = record r.update_message {
            changes = r.update_message.changes ++ (add_component change component ∷ []);
            entity_written = true;
          };
        },
        rw
            (
              unwritten,
              named,
              put,
              change_last-append (λ x. add_component x component) r.update_message.changes change,
            )
            refl,
        later,
        (
          inr (
            refl,
            add_component change component,
            ap (λ (xs : List ComponentChanges). xs ++ (add_component change component ∷ [])) same,
            kept ∙ cached,
          ),
          mutate_later s s₂ before.mutate_message r.mutate_message later mutate,
          λ is. absurd (false≢true (sym seen ∙ is)),
        ),
      )
  collect_insertion-Phase d c s before r seen (inr (written, change, e, cached), mutate, hidden) =
      let (s₂, component, put, kept) = write_component_cached-entity_range s c in
      let later : Grows s s₂ = λ x e₂. kept ∙ e₂ in
      let changed : List ComponentChanges =
        before.update_message.changes ++ (add_component change component ∷ []) in
      let added : change_last (λ x. add_component x component) r.update_message.changes
          ≡ ok changed =
        ap (change_last (λ x. add_component x component)) e
        ∙ change_last-append (λ x. add_component x component) before.update_message.changes
            change in
      (
        s₂,
        record r { update_message = record r.update_message { changes = changed } },
        rw (written, put, added) refl,
        later,
        (
          inr (written, add_component change component, refl, kept ∙ cached),
          mutate_later s s₂ before.mutate_message r.mutate_message later mutate,
          λ is. absurd (false≢true (sym seen ∙ is)),
        ),
      )

  pub collect_for-Phase :
      (d : EntityData Component) (c : ComponentData Component) (s : Written) (before r : Recipient)
      → Phase s before r
      → (s' : Written) × (r' : Recipient) × (collect_for w d c s r ≡ ok (s', r'))
        × Grows s s'
        × Phase s' before r'
  unfolding collect_for collect_since
  collect_for-Phase d c s before r h =
      elim (Bool-cases (is_hidden r.update_message.entity_visibility)) [
        | inl hidden ↦ (s, r, rw hidden refl, λ x e. e, h)
        | inr seen ↦ elim (Option-cases (mutations_since w d c r)) [
          | inl inserted ↦ rw (seen, inserted) (collect_insertion-Phase d c s before r seen h)
          | inr (tick, since) ↦ elim (Bool-cases (c.changed tick)) [
            | inl changed ↦ rw (seen, since, changed) (collect_mutation-Phase d c s before r h)
            | inr same ↦ (s, r, rw (seen, since, same) refl, λ x e. e, h)
          ]
        ]
      ]
