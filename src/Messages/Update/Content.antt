-- ===== src/Messages/Update/Content.antt =====
-- server/replication_messages/update_message.rs: the abstract view of an update message, its
-- content, and that every operation that builds the message adds to the content what it says.
use bevy_mod_replication.Common.{
  ℕ, ◌≡◌, refl, sym, ap, ◌∙◌, List, [], ◌∷◌, ◌++◌, length, arith, append_assoc, append-nil,
  length-append,
}
use bevy_mod_replication.Backend.Server.{Bytes}
use bevy_mod_replication.Wire.{Wire}
use bevy_mod_replication.Wire.Entities.{serialize_entity}
use bevy_mod_replication.Messages.{Range, concat, mapping_bytes, component_bytes}
use bevy_mod_replication.Messages.Slices.{Holds, HoldAll, grow-Holds, grow-HoldAll}
use bevy_mod_replication.Messages.Changes.{ComponentChanges, add_range-HoldAll}
use bevy_mod_replication.Messages.Update.{
  ComponentRemovals, UpdateMessage, default, add_despawn, add_removals, add_changed_entity,
}

pub record Content (Component : Type 0) : Type 0 where
  pub mappings : List (ℕ × ℕ)
  pub despawns : List ℕ
  pub removals : List (ℕ × List ℕ)
  pub changes : List (ℕ × List (ℕ × Component))

abbrev pub empty : {Component : Type 0} → Content Component
empty = record { mappings = []; despawns = []; removals = []; changes = [] }

-- Two lists of one length that are related one by one.
unfoldable pub Each : {A B : Type 0} → (A → B → Type 0) → List A → List B → Type 0
Each R [] [] = Unit
Each R (a ∷ as_) (b ∷ bs) = R a b × Each R as_ bs
Each R [] (b ∷ bs) = ⊥
Each R (a ∷ as_) [] = ⊥

pub append-Each :
    {A B : Type 0} (R : A → B → Type 0) (xs : List A) (ys : List B) (a : A) (b : B)
    → Each R xs ys
    → R a b
    → Each R (xs ++ (a ∷ [])) (ys ++ (b ∷ []))
unfolding Each
append-Each R [] [] a b h r = (r, tt)
append-Each R (x ∷ xs) (y ∷ ys) a b h r = (h.0, append-Each R xs ys a b h.1 r)
append-Each R [] (y ∷ ys) a b h r = elim h [ ]
append-Each R (x ∷ xs) [] a b h r = elim h [ ]

pub map-Each :
    {A B : Type 0} (R Q : A → B → Type 0) (xs : List A) (ys : List B)
    → ((a : A) (b : B) → R a b → Q a b)
    → Each R xs ys
    → Each Q xs ys
unfolding Each
map-Each R Q [] [] f h = tt
map-Each R Q (x ∷ xs) (y ∷ ys) f h = (f x y h.0, map-Each R Q xs ys f h.1)
map-Each R Q [] (y ∷ ys) f h = elim h [ ]
map-Each R Q (x ∷ xs) [] f h = elim h [ ]

pub length-Each :
    {A B : Type 0} (R : A → B → Type 0) (xs : List A) (ys : List B)
    → Each R xs ys
    → length xs ≡ length ys
unfolding Each
length-Each R [] [] h = refl
length-Each R (x ∷ xs) (y ∷ ys) h = ap (λ (n : ℕ). ℕ.suc n) (length-Each R xs ys h.1)
length-Each R [] (y ∷ ys) h = elim h [ ]
length-Each R (x ∷ xs) [] h = elim h [ ]

module _ {Component : Type 0} (w : Wire Component) where
  pub record IsRemoval (s : Bytes) (r : ComponentRemovals) (c : ℕ × List ℕ) : Type 0 where
    pub entity : Holds s r.entity (serialize_entity w c.0)
    pub ids_len : r.ids_len ≡ length c.1
    pub fn_ids : Holds s r.fn_ids (concat w w.fns_id c.1)

  pub record IsChange (s : Bytes) (r : ComponentChanges) (c : ℕ × List (ℕ × Component))
      : Type 0 where
    pub entity : Holds s r.entity (serialize_entity w c.0)
    pub components_len : r.components_len ≡ length c.1
    pub components : HoldAll s r.components (concat w (component_bytes w) c.1)

  -- The message, over the buffer, stands for the content.
  pub record Represents (s : Bytes) (m : UpdateMessage) (c : Content Component) : Type 0 where
    pub mappings : Holds s m.mappings (concat w (mapping_bytes w) c.mappings)
    pub mappings_len : m.mappings_len ≡ length c.mappings
    pub despawns : HoldAll s m.despawns (concat w (serialize_entity w) c.despawns)
    pub despawns_len : m.despawns_len ≡ length c.despawns
    pub removals : Each (IsRemoval s) m.removals c.removals
    pub changes : Each (IsChange s) m.changes c.changes

  pub default-Represents : (s : Bytes) → Represents s default empty
  unfolding default concat HoldAll Each
  default-Represents s = record {
    mappings = record { start_le = omega arith; end_le = omega arith; reads = refl };
    mappings_len = refl;
    despawns = refl;
    despawns_len = refl;
    removals = tt;
    changes = tt;
  }

  pub concat-append :
      {A : Type 0} (f : A → Bytes) (xs ys : List A)
      → concat w f (xs ++ ys) ≡ concat w f xs ++ concat w f ys
  unfolding concat
  concat-append f [] ys = refl
  concat-append f (x ∷ xs) ys =
      ap (λ (b : Bytes). f x ++ b) (concat-append f xs ys)
      ∙ sym (append_assoc (f x) (concat w f xs) (concat w f ys))

  -- Data that is appended to the buffer leaves the content.
  pub grow-Represents :
      (s more : Bytes) (m : UpdateMessage) (c : Content Component)
      → Represents s m c
      → Represents (s ++ more) m c
  grow-Represents s more m c h = record {
    mappings = grow-Holds s more _ _ h.mappings;
    mappings_len = h.mappings_len;
    despawns = grow-HoldAll s more _ _ h.despawns;
    despawns_len = h.despawns_len;
    removals =
        map-Each (IsRemoval s) (IsRemoval (s ++ more)) m.removals c.removals
          (λ r d k. record {
            entity = grow-Holds s more _ _ k.entity;
            ids_len = k.ids_len;
            fn_ids = grow-Holds s more _ _ k.fn_ids;
          })
          h.removals;
    changes =
        map-Each (IsChange s) (IsChange (s ++ more)) m.changes c.changes
          (λ r d k. record {
            entity = grow-Holds s more _ _ k.entity;
            components_len = k.components_len;
            components = grow-HoldAll s more _ _ k.components;
          })
          h.changes;
  }

  pub add_despawn-Represents :
      (s : Bytes) (m : UpdateMessage) (c : Content Component) (r : Range) (e : ℕ)
      → Represents s m c
      → Holds s r (serialize_entity w e)
      → Represents s (add_despawn m r) (record c { despawns = c.despawns ++ (e ∷ []) })
  unfolding add_despawn concat
  add_despawn-Represents s m c r e h k = record {
    mappings = h.mappings;
    mappings_len = h.mappings_len;
    despawns =
        rw
          (
            concat-append (serialize_entity w) c.despawns (e ∷ []),
            concat,
            append-nil (serialize_entity w e),
          )
          (add_range-HoldAll s m.despawns r _ _ h.despawns k);
    despawns_len = omega (arith, h.despawns_len, length-append c.despawns (e ∷ []));
    removals = h.removals;
    changes = h.changes;
  }

  pub add_removals-Represents :
      (s : Bytes) (m : UpdateMessage) (c : Content Component) (r : ComponentRemovals)
      (d : ℕ × List ℕ)
      → Represents s m c
      → IsRemoval s r d
      → Represents s
          (add_removals m r.entity r.ids_len r.fn_ids)
          (record c { removals = c.removals ++ (d ∷ []) })
  unfolding add_removals
  add_removals-Represents s m c r d h k = record {
    mappings = h.mappings;
    mappings_len = h.mappings_len;
    despawns = h.despawns;
    despawns_len = h.despawns_len;
    removals = append-Each (IsRemoval s) m.removals c.removals r d h.removals k;
    changes = h.changes;
  }

  pub add_changed_entity-Represents :
      (s : Bytes) (m : UpdateMessage) (c : Content Component) (r : Range) (e : ℕ)
      → Represents s m c
      → Holds s r (serialize_entity w e)
      → Represents s (add_changed_entity m r) (record c { changes = c.changes ++ ((e, []) ∷ []) })
  unfolding add_changed_entity
  add_changed_entity-Represents s m c r e h k = record {
    mappings = h.mappings;
    mappings_len = h.mappings_len;
    despawns = h.despawns;
    despawns_len = h.despawns_len;
    removals = h.removals;
    changes =
        append-Each (IsChange s) m.changes c.changes _ (e, []) h.changes
          (record {
            entity = k;
            components_len = refl;
            components = unfold HoldAll concat in refl;
          });
  }
