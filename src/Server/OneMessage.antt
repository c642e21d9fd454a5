-- ===== src/Server/OneMessage.antt =====
-- server.rs: what `collect_changes` has of an entity for a client ends up in one of its messages.
use bevy_mod_replication.Common.{
  ℕ, ◌≡◌, refl, sym, ap, ◌∙◌, subst, Bool, true, false, not, ◌&&◌, ◌||◌, none, some, List, [], ◌∷◌,
  ◌++◌, any, map, ◌==◌, ==_self, Outcome, ok, debug_assert-true, ◌⊎◌, Bool-cases, inl, inr,
}
use mathlib.Core.Bool.{false≢true}
use bevy_mod_replication.Clients.{set_mutation_tick}
use bevy_mod_replication.Backend.Server.{Bytes}
use bevy_mod_replication.Wire.{Wire}
use bevy_mod_replication.Messages.{Range}
use bevy_mod_replication.Messages.Changes.{ComponentChanges, extend}
use bevy_mod_replication.Messages.Mutate.{
  MutateMessage, start_entity_mutations, last_of, pop_last, last_mutations, pop_mutations,
}
use bevy_mod_replication.Messages.Update.{
  UpdateMessage, start_entity_changes, add_changed_entity, extend_last, take_mutations,
}
use bevy_mod_replication.Server.Collect.{
  Recipient, ComponentData, EntityData, Written, is_hidden, is_gained, collect_for, each_client,
  collect_components, start_entity, take_entity, write_new, finish_entity, collect_changes,
}
use bevy_mod_replication.Server.Atomic.{
  Grows, Phase, UpdatePhase, Phase-later, collect_for-Phase, change_last-append, last_of-append,
  pop_last-append, write_entity_cached-Grows,
}

-- Client by client.
unfoldable pub Pairs : (Recipient → Recipient → Type 0) → List Recipient → List Recipient → Type 0
Pairs P [] [] = Unit
Pairs P [] (r ∷ rs) = ⊥
Pairs P (b ∷ bs) [] = ⊥
Pairs P (b ∷ bs) (r ∷ rs) = P b r × Pairs P bs rs

-- The update message has no more changes than before, or the mutate message has no more mutations.
unfoldable pub OneMessage : Recipient → Recipient → Type 0
OneMessage before r =
    (r.update_message.changes ≡ before.update_message.changes)
    ⊎ ((r.mutate_message.mutations ≡ before.mutate_message.mutations)
        × (r.mutate_message.entities ≡ before.mutate_message.entities))

Pairs-map :
    (P Q : Recipient → Recipient → Type 0)
    → ((b r : Recipient) → P b r → Q b r)
    → (bs rs : List Recipient) → Pairs P bs rs
    → Pairs Q bs rs
unfolding Pairs
Pairs-map P Q f [] [] h = tt
Pairs-map P Q f [] (r ∷ rs) h = absurd h
Pairs-map P Q f (b ∷ bs) [] h = absurd h
Pairs-map P Q f (b ∷ bs) (r ∷ rs) h = (f b r h.0, Pairs-map P Q f bs rs h.1)

-- What each client keeps, whatever is written for the others in between.
each_client-Pairs :
    (f : Written → Recipient → Outcome (Written × Recipient))
    (P Q : Written → Recipient → Recipient → Type 0)
    → ((s s' : Written) (b r : Recipient) → Grows s s' → P s b r → P s' b r)
    → ((s s' : Written) (b r : Recipient) → Grows s s' → Q s b r → Q s' b r)
    → ((s : Written) (b r : Recipient)
        → P s b r
        → (s' : Written) × (r' : Recipient) × (f s r ≡ ok (s', r')) × Grows s s' × Q s' b r')
    → (s : Written) (bs rs : List Recipient) → Pairs (P s) bs rs
    → (s' : Written) × (rs' : List Recipient) × (each_client f s rs ≡ ok (s', rs'))
      × Grows s s'
      × Pairs (Q s') bs rs'
unfolding each_client Pairs
each_client-Pairs f P Q later later' step s [] [] h = (s, [], refl, λ x e. e, tt)
each_client-Pairs f P Q later later' step s [] (r ∷ rs) h = absurd h
each_client-Pairs f P Q later later' step s (b ∷ bs) [] h = absurd h
each_client-Pairs f P Q later later' step s (b ∷ bs) (r ∷ rs) h =
    let (s₁, r₁, run, grows, q) = step s b r h.0 in
    let (s₂, rs₂, run', grows', qs) =
      each_client-Pairs f P Q later later' step s₁ bs rs
        (Pairs-map (P s) (P s₁) (λ x y p. later s s₁ x y grows p) bs rs h.1) in
    (
      s₂,
      r₁ ∷ rs₂,
      rw (run, run') refl,
      λ x e. grows' x (grows x e),
      (later' s₁ s₂ b r₁ grows' q, qs),
    )

extend_last-append :
    (checks : Bool) (mutations c : ComponentChanges) (xs : List ComponentChanges)
    → mutations.entity ≡ c.entity
    → extend_last checks mutations (xs ++ (c ∷ [])) ≡ ok (xs ++ (extend c mutations ∷ []))
unfolding extend_last
extend_last-append checks mutations c xs e =
    let same : (mutations.entity.start == c.entity.start && mutations.entity.end == c.entity.end)
        ≡ true =
      subst
        (λ (x : Range). (mutations.entity.start == x.start && mutations.entity.end == x.end) ≡ true)
        e (rw (==_self mutations.entity.start, ==_self mutations.entity.end) refl) in
    rw (last_of-append xs c, extend_last)
      (rw (same, debug_assert-true checks, change_last-append (λ d. extend d mutations) xs c) refl)

-- The mutations of the entity are taken out of the mutate message.
take_mutations-Phase :
    (checks : Bool) (s : Written) (before r : Recipient)
    → Phase s before r
    → (u : UpdateMessage) × (m : MutateMessage) × (take_mutations checks r.update_message
          r.mutate_message
        ≡ ok (u, m))
      × (m.mutations ≡ before.mutate_message.mutations)
      × (m.entities ≡ before.mutate_message.entities)
unfolding take_mutations Phase pop_mutations last_mutations
take_mutations-Phase checks s before r (update, inl (unwritten, same, same'), hidden) =
    (r.update_message, r.mutate_message, rw unwritten refl, same, same')
take_mutations-Phase checks s before r
      (inl (no_update, kept), inr (written, change, entity, e, e', cached), hidden) =
    let last : last_of r.mutate_message.mutations ≡ some change =
      ap last_of e ∙ last_of-append before.mutate_message.mutations change in
    let fresh : ComponentChanges = record {
      entity = change.entity;
      components_len = 0;
      components = [];
    } in
    (
      record r.update_message { changes = r.update_message.changes ++ (extend fresh change ∷ []) },
      pop_mutations r.mutate_message,
      simp (
        written,
        last,
        no_update,
        extend_last-append checks change fresh r.update_message.changes refl,
      ),
      ap pop_last e ∙ pop_last-append before.mutate_message.mutations change,
      ap pop_last e' ∙ pop_last-append before.mutate_message.entities entity,
    )
take_mutations-Phase checks s before r
      (inr (updated, other, e₂, cached₂), inr (written, change, entity, e, e', cached), hidden) =
    let last : last_of r.mutate_message.mutations ≡ some change =
      ap last_of e ∙ last_of-append before.mutate_message.mutations change in
    let both_ranges : some change.entity ≡ some other.entity = sym cached ∙ cached₂ in
    let same : change.entity ≡ other.entity = cc in
    let extended : extend_last checks change r.update_message.changes
        ≡ ok (before.update_message.changes ++ (extend other change ∷ [])) =
      ap (extend_last checks change) e₂
      ∙ extend_last-append checks change other before.update_message.changes same in
    (
      record r.update_message {
        changes = before.update_message.changes ++ (extend other change ∷ []);
      },
      pop_mutations r.mutate_message,
      simp (written, last, updated, extended),
      ap pop_last e ∙ pop_last-append before.mutate_message.mutations change,
      ap pop_last e' ∙ pop_last-append before.mutate_message.entities entity,
    )

unchanged :
    (s : Written) (before m : UpdateMessage)
    → UpdatePhase s before m
    → m.entity_written ≡ false
    → m.changes ≡ before.changes
unchanged s before m (inl (unwritten, same)) h = same
unchanged s before m (inr (written, change, e, cached)) h = absurd (false≢true (sym h ∙ written))

nothing_of_it : (a b c : Bool) → (a || (b || c)) ≡ false → (a ≡ false) × (b ≡ false)
nothing_of_it true b c h = absurd (false≢true (sym h))
nothing_of_it false true c h = absurd (false≢true (sym h))
nothing_of_it false false c h = (refl, refl)

start_entity-Phase :
    (entity : ℕ) (s : Written) (rs : List Recipient)
    → Pairs (Phase s) rs (map (start_entity entity) rs)
unfolding Pairs Phase start_entity start_entity_changes start_entity_mutations
start_entity-Phase entity s [] = tt
start_entity-Phase entity s (r ∷ rs) =
    ((inl (refl, refl), inl (refl, refl, refl), λ hidden. refl), start_entity-Phase entity s rs)

module _ {Component : Type 0} (w : Wire Component) where
  write_new-mutations :
      (d : EntityData Component) (new_entity : Bool) (s : Written) (r : Recipient)
      → (s' : Written) × (r' : Recipient) × (write_new w d new_entity s r ≡ (s', r'))
        × Grows s s'
        × (r'.mutate_message ≡ r.mutate_message)
  unfolding write_new
  write_new-mutations d new_entity s r =
      let (s', range, named, cached, grows) = write_entity_cached-Grows w s d.entity in
      elim (Bool-cases (new_entity && not r.update_message.entity_written)) [
        | inl bare ↦ (
          s',
          record r { update_message = add_changed_entity r.update_message range },
          rw (bare, named) refl,
          grows,
          refl,
        )
        | inr other ↦ (s, r, rw other refl, λ x e. e, refl)
      ]

  write_new-old :
      (d : EntityData Component) (new_entity : Bool) (s : Written) (r : Recipient)
      → new_entity ≡ false
      → write_new w d new_entity s r ≡ (s, r)
  unfolding write_new
  write_new-old d new_entity s r old = rw old refl

  finish_entity-OneMessage :
      (checks : Bool) (removals : List (ℕ × List (ℕ × ℕ))) (this_run : ℕ) (d : EntityData Component)
      (s : Written) (before r : Recipient)
      → Phase s before r
      → (s' : Written) × (r' : Recipient) × (finish_entity w checks removals this_run d s r
          ≡ ok (s', r'))
        × Grows s s'
        × OneMessage before r'
  unfolding finish_entity take_entity OneMessage Phase
  finish_entity-OneMessage checks removals this_run d s before r (update, mutate, unseen) =
      let new_entity = d.marker_added || is_gained r.update_message.entity_visibility in
      let removed = any (λ removal. removal.0 == d.entity) removals in
      elim (Bool-cases (is_hidden r.update_message.entity_visibility)) [
        | inl hidden ↦ (
          s,
          r,
          rw hidden refl,
          λ x e. e,
          inl (unchanged s before.update_message r.update_message update (unseen hidden)),
        )
        | inr seen ↦
            elim (Bool-cases (new_entity || (r.update_message.entity_written || removed))) [
              | inl taken ↦
                  let (u, m, took, same, same') =
                    take_mutations-Phase checks s before r (update, mutate, unseen) in
                  let moved : Recipient = record {
                    client = set_mutation_tick r.client d.entity this_run;
                    update_message = u;
                    mutate_message = m;
                  } in
                  let (s', r', wrote, grows, kept) = write_new-mutations d new_entity s moved in
                  (
                    s',
                    r',
                    rw (seen, taken, took) (ap (λ (x : Written × Recipient). ok x) wrote),
                    grows,
                    inr (
                      ap (λ (x : MutateMessage). x.mutations) kept ∙ same,
                      ap (λ (x : MutateMessage). x.entities) kept ∙ same',
                    ),
                  )
              | inr left ↦
                  let (old, unwritten) =
                    nothing_of_it new_entity r.update_message.entity_written removed left in
                  (
                    s,
                    r,
                    rw (seen, left)
                        (ap (λ (x : Written × Recipient). ok x)
                          (write_new-old d new_entity s r old)),
                    λ x e. e,
                    inl (unchanged s before.update_message r.update_message update unwritten),
                  )
            ]
      ]

  collect_components-Phase :
      (d : EntityData Component) (cs : List (ComponentData Component)) (s : Written)
      (bs rs : List Recipient)
      → Pairs (Phase s) bs rs
      → (s' : Written) × (rs' : List Recipient) × (collect_components w d cs s rs ≡ ok (s', rs'))
        × Pairs (Phase s') bs rs'
  unfolding collect_components
  collect_components-Phase d [] s bs rs h = (s, rs, refl, h)
  collect_components-Phase d (c ∷ cs) s bs rs h =
      let start : Written = record s { component_range = none } in
      let (s₁, rs₁, run, grows, h₁) =
        each_client-Pairs (collect_for w d c) Phase Phase Phase-later Phase-later
          (collect_for-Phase w d c) start bs rs
          (Pairs-map (Phase s) (Phase start) (λ b r p. Phase-later s start b r (λ x e. e) p) bs rs
            h) in
      let (s₂, rs₂, run', h₂) = collect_components-Phase d cs s₁ bs rs₁ h₁ in
      (s₂, rs₂, rw run run', h₂)

  -- Collecting the changes of an entity panics nowhere, also in the checked build and with whatever is
  -- cached for the other clients; and for each client it leaves the update message without a new
  -- change or the mutate message without new mutations: the insertions and the mutations of the entity
  -- that a client gets in a tick are in one message.
  pub collect_changes-OneMessage :
      (checks : Bool) (removals : List (ℕ × List (ℕ × ℕ))) (this_run : ℕ) (d : EntityData Component)
      (s : Bytes) (rs : List Recipient)
      → (s' : Bytes) × (rs' : List Recipient) × (collect_changes w checks removals this_run
            (d ∷ [])
            s
            rs
          ≡ ok (s', rs'))
        × Pairs OneMessage rs rs'
  unfolding collect_changes
  collect_changes-OneMessage checks removals this_run d s rs =
      let start : Written = record {
        serialized = s;
        entity_range = none;
        component_range = none;
      } in
      let (s₁, rs₁, run, h) =
        collect_components-Phase d d.components start rs (map (start_entity d.entity) rs)
          (start_entity-Phase d.entity start rs) in
      let (s₂, rs₂, run', grows, one) =
        each_client-Pairs (finish_entity w checks removals this_run d) Phase
          (λ _ b r. OneMessage b r) Phase-later (λ _ _ b r _ x. x)
          (finish_entity-OneMessage checks removals this_run d) s₁ rs rs₁ h in
      (s₂.serialized, rs₂, rw (run, run') refl, one)
