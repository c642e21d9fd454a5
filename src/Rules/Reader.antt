-- ===== src/Rules/Reader.antt =====
-- server/removal_buffer.rs: the reader of removed components and the system that buffers them. The engine
-- has the events of each component, the events that are new to a cursor (`Cursor`, a parameter), the
-- replicated entities and the archetypes. The pool of emptied sets is left out.
use bevy_mod_replication.Common.{
  ℕ, Bool, Option, none, some, List, [], ◌∷◌, if◌then◌else◌, Outcome, ok, ◌>>=◌, expect,
}
use bevy_mod_replication.Common.Maps.{lookup, insert, contains, set_insert}
use bevy_mod_replication.Rules.{ReplicationRule, update}

-- `ReplicatedComponents::from_world`.
unfoldable pub rule_components : List (ℕ × ℕ) → List ℕ → List ℕ
rule_components [] rest = rest
rule_components (c ∷ cs) rest = set_insert c.0 (rule_components cs rest)

unfoldable pub replicated_components : List ReplicationRule → List ℕ
unfolding rule_components
replicated_components [] = []
replicated_components (rule ∷ rules) = rule_components rule.components (replicated_components rules)

abbrev pub or_empty : Option (List ℕ) → List ℕ
or_empty none = []
or_empty (some components) = components

pub record RemovalReader (Cursor : Type 0) : Type 0 where
  pub components : List ℕ
  pub readers : List (ℕ × Cursor)
  pub removals : List (ℕ × List ℕ)

unfoldable pub clear : {Cursor : Type 0} → RemovalReader Cursor → RemovalReader Cursor
clear r = record r { removals = [] }

-- The removals of one component, from the entities of its events.
unfoldable pub read_entities : (ℕ → Bool) → ℕ → List ℕ → List (ℕ × List ℕ) → List (ℕ × List ℕ)
read_entities replicated component_id [] removals = removals
read_entities replicated component_id (entity ∷ entities) removals =
    read_entities replicated component_id entities (
      if replicated entity
      then insert entity (set_insert component_id (or_empty (lookup entity removals))) removals
      else removals)

abbrev pub or_default : {Cursor : Type 0} → Cursor → Option Cursor → Cursor
or_default start none = start
or_default start (some cursor) = cursor

module _ {Cursor : Type 0} {Events : Type 0} where
  unfoldable pub read_events :
      Cursor
      → (Cursor → Events → List ℕ × Cursor)
      → (ℕ → Bool)
      → RemovalReader Cursor
      → List (ℕ × Events)
      → RemovalReader Cursor
  unfolding read_entities
  read_events start read_new replicated r [] = r
  read_events start read_new replicated r (event ∷ remove_events) =
      let new = read_new (or_default start (lookup event.0 r.readers)) event.1 in
      let read : RemovalReader Cursor = record r {
        readers = insert event.0 new.1 r.readers;
        removals = read_entities replicated event.0 new.0 r.removals;
      } in
      read_events start read_new replicated (if contains event.0 r.components then read else r)
        remove_events

  unfoldable pub read :
      Cursor
      → (Cursor → Events → List ℕ × Cursor)
      → (ℕ → Bool)
      → RemovalReader Cursor
      → List (ℕ × Events)
      → RemovalReader Cursor
  unfolding clear read_events
  read start read_new replicated r remove_events =
      read_events start read_new replicated (clear r) remove_events

-- `RemovalBufferPlugin::buffer_removals`, from what `read` gives. The engine has the archetype of an
-- entity; a replicated entity exists.
unfoldable pub buffer_removals :
    (ℕ → Option (ℕ → Bool))
    → List ReplicationRule
    → List (ℕ × List ℕ)
    → List (ℕ × List (ℕ × ℕ))
    → Outcome (List (ℕ × List (ℕ × ℕ)))
buffer_removals archetype rules [] removal_buffer = ok removal_buffer
buffer_removals archetype rules (removal ∷ removals) removal_buffer =
    expect (archetype removal.0) >>= λ has_component.
    buffer_removals archetype rules removals
      (update removal_buffer rules has_component removal.0 removal.1)
