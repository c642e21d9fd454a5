-- ===== src/Messages/Update/Building.antt =====
-- server/replication_messages/update_message.rs: a message that is built by any sequence of calls
-- stands for the content that the same sequence gives abstractly.
use bevy_mod_replication.Common.{
  ℕ, refl, List, [], ◌∷◌, ◌++◌, length, arith, append-nil, length-append, Outcome, ok, panic, ◌>>=◌,
}
use bevy_mod_replication.Visibility.{Visibility}
use bevy_mod_replication.Backend.Server.{Bytes}
use bevy_mod_replication.Wire.{Wire}
use bevy_mod_replication.Wire.Entities.{serialize_entity}
use bevy_mod_replication.Messages.{
  Range, concat, mapping_bytes, component_bytes, append, write_entity, write_mappings, write_fn_ids,
  write_component,
}
use bevy_mod_replication.Messages.Slices.{Holds, grow-Holds, append-Holds}
use bevy_mod_replication.Messages.Changes.{ComponentChanges, add_component, add_range-HoldAll}
use bevy_mod_replication.Messages.Mutate.{change_last}
use bevy_mod_replication.Messages.Update.{
  UpdateMessage, set_mappings, add_despawn, add_removals, start_entity_changes, add_changed_entity,
  add_inserted_component,
}
use bevy_mod_replication.Messages.Update.Content.{
  Content, Each, Represents, IsChange, grow-Represents, add_despawn-Represents,
  add_removals-Represents, add_changed_entity-Represents, concat-append,
}

-- What the collecting functions of the server do to one client's message; `foreign` is data that is
-- written for other clients in between.
pub data Call (Component : Type 0) : Type 0 where
  mappings : List (ℕ × ℕ) → Call Component
  despawn : ℕ → Call Component
  removals : ℕ → List ℕ → Call Component
  entity : ℕ → Call Component
  component : ℕ × Component → Call Component
  start : Visibility → Call Component
  foreign : Bytes → Call Component

module _ {Component : Type 0} (w : Wire Component) where
  -- The data is written to the buffer, and its range is added to the message.
  unfoldable pub step : Bytes × UpdateMessage → Call Component → Outcome (Bytes × UpdateMessage)
  step (s, m) (mappings ms) =
      let r = write_mappings w s ms in ok (r.0, set_mappings m r.1 (length ms))
  step (s, m) (despawn e) = let r = write_entity w s e in ok (r.0, add_despawn m r.1)
  step (s, m) (removals e ids) =
      let r = write_entity w s e in
      let q = write_fn_ids w r.0 ids in ok (q.0, add_removals m r.1 (length ids) q.1)
  step (s, m) (entity e) = let r = write_entity w s e in ok (r.0, add_changed_entity m r.1)
  step (s, m) (component c) =
      let r = write_component w s c in add_inserted_component m r.1 >>= λ m'. ok (r.0, m')
  step (s, m) (start v) = ok (s, start_entity_changes m v)
  step (s, m) (foreign bytes) = ok (s ++ bytes, m)

  unfoldable pub run :
      Bytes × UpdateMessage → List (Call Component) → Outcome (Bytes × UpdateMessage)
  run t [] = ok t
  run t (c ∷ cs) = step t c >>= λ t'. run t' cs

  -- The same on contents.
  abbrev add_to_last : ℕ × Component → ℕ × List (ℕ × Component) → ℕ × List (ℕ × Component)
  add_to_last c change = (change.0, change.1 ++ (c ∷ []))

  unfoldable pub spec_step : Content Component → Call Component → Outcome (Content Component)
  spec_step t (mappings ms) = ok (record t { mappings = ms })
  spec_step t (despawn e) = ok (record t { despawns = t.despawns ++ (e ∷ []) })
  spec_step t (removals e ids) = ok (record t { removals = t.removals ++ ((e, ids) ∷ []) })
  spec_step t (entity e) = ok (record t { changes = t.changes ++ ((e, []) ∷ []) })
  spec_step t (component c) =
      change_last (add_to_last c) t.changes >>= λ changes. ok (record t { changes = changes })
  spec_step t (start v) = ok t
  spec_step t (foreign bytes) = ok t

  unfoldable pub spec_run : Content Component → List (Call Component) → Outcome (Content Component)
  spec_run t [] = ok t
  spec_run t (c ∷ cs) = spec_step t c >>= λ t'. spec_run t' cs

  -- Both return, and the message stands for the content, or both panic.
  unfoldable pub Agree : Outcome (Bytes × UpdateMessage) → Outcome (Content Component) → Type 0
  Agree (ok (s, m)) (ok c) = Represents w s m c
  Agree panic panic = Unit
  Agree (ok t) panic = ⊥
  Agree panic (ok c) = ⊥

  -- The outcomes of a change of the last entry agree.
  AgreeEach :
      Bytes → Outcome (List ComponentChanges) → Outcome (List (ℕ × List (ℕ × Component))) → Type 0
  AgreeEach s (ok xs) (ok ys) = Each (IsChange w s) xs ys
  AgreeEach s panic panic = Unit
  AgreeEach s (ok xs) panic = ⊥
  AgreeEach s panic (ok ys) = ⊥

  cons-AgreeEach :
      (s : Bytes) (x : ComponentChanges) (y : ℕ × List (ℕ × Component))
      (xs : Outcome (List ComponentChanges)) (ys : Outcome (List (ℕ × List (ℕ × Component))))
      → IsChange w s x y
      → AgreeEach s xs ys
      → AgreeEach s
          (elim xs [ panic ↦ panic | ok changed ↦ ok (x ∷ changed) ])
          (elim ys [ panic ↦ panic | ok changed ↦ ok (y ∷ changed) ])
  unfolding AgreeEach Each
  cons-AgreeEach s x y (ok xs) (ok ys) h k = (h, k)
  cons-AgreeEach s x y panic panic h k = tt
  cons-AgreeEach s x y (ok xs) panic h k = elim k [ ]
  cons-AgreeEach s x y panic (ok ys) h k = elim k [ ]

  change_last-AgreeEach :
      (s : Bytes) (f : ComponentChanges → ComponentChanges)
      (g : ℕ × List (ℕ × Component) → ℕ × List (ℕ × Component)) (xs : List ComponentChanges)
      (ys : List (ℕ × List (ℕ × Component)))
      → ((x : ComponentChanges) (y : ℕ × List (ℕ × Component))
          → IsChange w s x y
          → IsChange w s (f x) (g y))
      → Each (IsChange w s) xs ys
      → AgreeEach s (change_last f xs) (change_last g ys)
  unfolding change_last AgreeEach Each
  change_last-AgreeEach s f g [] [] k h = tt
  change_last-AgreeEach s f g (x ∷ []) (y ∷ []) k h = (k x y h.0, tt)
  change_last-AgreeEach s f g (x ∷ x' ∷ xs) (y ∷ y' ∷ ys) k h =
      cons-AgreeEach s x y (change_last f (x' ∷ xs)) (change_last g (y' ∷ ys)) h.0
        (change_last-AgreeEach s f g (x' ∷ xs) (y' ∷ ys) k h.1)
  change_last-AgreeEach s f g [] (y ∷ ys) k h = elim h [ ]
  change_last-AgreeEach s f g (x ∷ xs) [] k h = elim h [ ]
  change_last-AgreeEach s f g (x ∷ []) (y ∷ y' ∷ ys) k h = elim h.1 [ ]
  change_last-AgreeEach s f g (x ∷ x' ∷ xs) (y ∷ []) k h = elim h.1 [ ]

  add_component-IsChange :
      (s : Bytes) (r : Range) (c : ℕ × Component) (x : ComponentChanges)
      (y : ℕ × List (ℕ × Component))
      → Holds s r (component_bytes w c)
      → IsChange w s x y
      → IsChange w s (add_component x r) (add_to_last c y)
  unfolding add_component concat
  add_component-IsChange s r c x y k h = record {
    entity = h.entity;
    components_len = omega (arith, h.components_len, length-append y.1 (c ∷ []));
    components =
        rw
          (
            concat-append w (component_bytes w) y.1 (c ∷ []),
            concat,
            append-nil (component_bytes w c),
          )
          (add_range-HoldAll s x.components r _ _ h.components k);
  }

  -- The changes of a message that stands for a content, and of that content, put in place.
  with_changes :
      (s : Bytes) (m : UpdateMessage) (c : Content Component) (xs : Outcome (List ComponentChanges))
      (ys : Outcome (List (ℕ × List (ℕ × Component))))
      → Represents w s m c
      → AgreeEach s xs ys
      → Agree
          ((xs >>= λ x. ok (record m { changes = x })) >>= λ m'. ok (s, m'))
          (ys >>= λ y. ok (record c { changes = y }))
  unfolding AgreeEach Agree
  with_changes s m c (ok xs) (ok ys) h k = record {
    mappings = h.mappings;
    mappings_len = h.mappings_len;
    despawns = h.despawns;
    despawns_len = h.despawns_len;
    removals = h.removals;
    changes = k;
  }
  with_changes s m c panic panic h k = tt
  with_changes s m c (ok xs) panic h k = elim k [ ]
  with_changes s m c panic (ok ys) h k = elim k [ ]

  step-Agree :
      (s : Bytes) (m : UpdateMessage) (c : Content Component) (call : Call Component)
      → Represents w s m c
      → Agree (step (s, m) call) (spec_step c call)
  unfolding Agree step spec_step
  step-Agree s m c (mappings ms) h =
      let g = grow-Represents w s (concat w (mapping_bytes w) ms) m c h in
      unfold write_mappings set_mappings in
      record {
        mappings = append-Holds s (concat w (mapping_bytes w) ms);
        mappings_len = refl;
        despawns = g.despawns;
        despawns_len = g.despawns_len;
        removals = g.removals;
        changes = g.changes;
      }
  step-Agree s m c (despawn e) h =
      unfold write_entity in
      add_despawn-Represents w _ m c _ e (grow-Represents w s (serialize_entity w e) m c h)
        (append-Holds s (serialize_entity w e))
  step-Agree s m c (removals e ids) h =
      unfold write_entity write_fn_ids in
      let name = serialize_entity w e in
      let listed = concat w w.fns_id ids in
      add_removals-Represents w (s ++ name ++ listed) m c
        (record {
          entity = (append s name).1;
          ids_len = length ids;
          fn_ids = (append (s ++ name) listed).1;
        })
        (e, ids) (grow-Represents w (s ++ name) listed m c (grow-Represents w s name m c h))
        (record {
          entity = grow-Holds (s ++ name) listed _ _ (append-Holds s name);
          ids_len = refl;
          fn_ids = append-Holds (s ++ name) listed;
        })
  step-Agree s m c (entity e) h =
      unfold write_entity in
      add_changed_entity-Represents w _ m c _ e (grow-Represents w s (serialize_entity w e) m c h)
        (append-Holds s (serialize_entity w e))
  step-Agree s m c (component x) h =
      unfold write_component add_inserted_component in
      let bytes = component_bytes w x in
      let g = grow-Represents w s bytes m c h in
      with_changes (s ++ bytes) m c _ _ g (
        change_last-AgreeEach (s ++ bytes) (λ d. add_component d (append s bytes).1) (add_to_last x)
          m.changes c.changes
          (λ a b k.
            add_component-IsChange (s ++ bytes) (append s bytes).1 x a b (append-Holds s bytes) k)
          g.changes)
  step-Agree s m c (start v) h =
      unfold start_entity_changes in
      record {
        mappings = h.mappings;
        mappings_len = h.mappings_len;
        despawns = h.despawns;
        despawns_len = h.despawns_len;
        removals = h.removals;
        changes = h.changes;
      }
  step-Agree s m c (foreign bytes) h = grow-Represents w s bytes m c h

  bind-Agree :
      (cs : List (Call Component)) (t : Outcome (Bytes × UpdateMessage))
      (c : Outcome (Content Component))
      → ((s : Bytes) (m : UpdateMessage) (d : Content Component)
          → Represents w s m d
          → Agree (run (s, m) cs) (spec_run d cs))
      → Agree t c
      → Agree (t >>= λ t'. run t' cs) (c >>= λ c'. spec_run c' cs)
  unfolding Agree
  bind-Agree cs (ok (s, m)) (ok c) k h = k s m c h
  bind-Agree cs panic panic k h = tt
  bind-Agree cs (ok (s, m)) panic k h = elim h [ ]
  bind-Agree cs panic (ok c) k h = elim h [ ]

  -- From a message that stands for a content, calls that build it further, on a buffer that other
  -- data is written to in between, give a message that stands for the content that the same calls
  -- give; and the calls panic exactly where a component comes before any entity.
  pub run-Agree :
      (calls : List (Call Component)) (s : Bytes) (m : UpdateMessage) (c : Content Component)
      → Represents w s m c
      → Agree (run (s, m) calls) (spec_run c calls)
  unfolding run spec_run
  run-Agree [] s m c h = unfold Agree in h
  run-Agree (call ∷ calls) s m c h =
      bind-Agree calls (step (s, m) call) (spec_step c call)
        (λ s' m' c' h'. run-Agree calls s' m' c' h') (step-Agree s m c call h)
