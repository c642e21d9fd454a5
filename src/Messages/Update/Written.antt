-- ===== src/Messages/Update/Written.antt =====
-- server/replication_messages/update_message.rs: the bytes of a message that stands for a content,
-- and their precalculated size.
use mathlib.Core.Bool.{false≢true}
use bevy_mod_replication.Common.{
  ℕ, ◌+◌, ◌≡◌, refl, sym, ap, ◌∙◌, Bool, true, false, some, List, [], ◌∷◌, ◌++◌, length, arith,
  append_assoc, length-append, ok, debug_assert-true,
}
use bevy_mod_replication.Backend.Server.{Bytes}
use bevy_mod_replication.Wire.{Wire}
use bevy_mod_replication.Wire.Entities.{serialize_entity}
use bevy_mod_replication.Messages.{concat, mapping_bytes, component_bytes}
use bevy_mod_replication.Messages.Flags.{Section, Ends, is_mappings, is_changes}
use bevy_mod_replication.Messages.Slices.{slice-Holds, slices-HoldAll, len-Holds}
use bevy_mod_replication.Messages.Changes.{ComponentChanges, components_size, sum_len-HoldAll}
use bevy_mod_replication.Messages.Update.{
  ComponentRemovals, UpdateMessage, section_bytes, section_len, section_size, section_count,
  count_size, check_last, is_skipped, sections_size, write_sections, write_removals, write_changes,
  removals_size, changes_size,
}
use bevy_mod_replication.Messages.Update.Content.{
  Content, Each, Represents, IsRemoval, IsChange, length-Each,
}

pub append_three : (x y z rest : Bytes) → (x ++ (y ++ z)) ++ rest ≡ x ++ (y ++ (z ++ rest))
append_three x y z rest =
    append_assoc x (y ++ z) rest ∙ ap (λ (b : Bytes). x ++ b) (append_assoc y z rest)

length_three :
    (x y z rest : Bytes)
    → length ((x ++ (y ++ z)) ++ rest) ≡ length x + length y + length z + length rest
length_three x y z rest =
    omega (arith, length-append (x ++ (y ++ z)) rest, length-append x (y ++ z), length-append y z)

skipped-last : (f : Section) → is_mappings f ≡ false → is_skipped true f ≡ false
unfolding is_skipped
skipped-last Section.mappings h = h
skipped-last Section.despawns h = refl
skipped-last Section.removals h = refl
skipped-last Section.changes h = refl

skipped-inner : (f : Section) → is_skipped false f ≡ false
unfolding is_skipped
skipped-inner Section.mappings = refl
skipped-inner Section.despawns = refl
skipped-inner Section.removals = refl
skipped-inner Section.changes = refl

check_last-last : (checks : Bool) (f : Section) → check_last checks true f ≡ ok tt
unfolding check_last
check_last-last checks Section.mappings = refl
check_last-last checks Section.despawns = refl
check_last-last checks Section.removals = refl
check_last-last checks Section.changes = debug_assert-true checks

check_last-inner :
    (checks : Bool) (f : Section) → is_changes f ≡ false → check_last checks false f ≡ ok tt
unfolding check_last
check_last-inner checks Section.mappings k = refl
check_last-inner checks Section.despawns k = refl
check_last-inner checks Section.removals k = refl
check_last-inner checks Section.changes k = elim (false≢true (sym k)) [ ]

module _ {Component : Type 0} (w : Wire Component) where
  abbrev pub removal_bytes : ℕ × List ℕ → Bytes
  removal_bytes r = serialize_entity w r.0 ++ (w.varint (length r.1) ++ concat w w.fns_id r.1)

  abbrev pub change_bytes : ℕ × List (ℕ × Component) → Bytes
  change_bytes c =
      serialize_entity w c.0 ++ (w.varint (length c.1) ++ concat w (component_bytes w) c.1)

  -- The bytes of each section of a content, and the number of its items.
  unfoldable pub content_bytes : Content Component → Section → Bytes
  content_bytes c Section.mappings = concat w (mapping_bytes w) c.mappings
  content_bytes c Section.despawns = concat w (serialize_entity w) c.despawns
  content_bytes c Section.removals = concat w removal_bytes c.removals
  content_bytes c Section.changes = concat w change_bytes c.changes

  unfoldable pub content_len : Content Component → Section → ℕ
  content_len c Section.mappings = length c.mappings
  content_len c Section.despawns = length c.despawns
  content_len c Section.removals = length c.removals
  content_len c Section.changes = length c.changes

  -- The sections one after the other, each but the last with its number of items before it.
  unfoldable pub encode : Content Component → List Section → Bytes
  encode c [] = []
  encode c (f ∷ []) = content_bytes c f
  encode c (f ∷ g ∷ fs) = w.varint (content_len c f) ++ (content_bytes c f ++ encode c (g ∷ fs))

  write_removals-Each :
      (s : Bytes) (rs : List ComponentRemovals) (ds : List (ℕ × List ℕ))
      → Each (IsRemoval w s) rs ds
      → write_removals w s rs ≡ ok (concat w removal_bytes ds)
  unfolding write_removals Each concat
  write_removals-Each s [] [] h = refl
  write_removals-Each s (r ∷ rs) (d ∷ ds) h = rw (slice-Holds s r.entity _ h.0.entity) (
      rw (slice-Holds s r.fn_ids _ h.0.fn_ids) (
        rw (write_removals-Each s rs ds h.1) (
          rw (h.0.ids_len)
            (ap ok (sym (append_three (serialize_entity w d.0) (w.varint (length d.1)) _ _))))))
  write_removals-Each s [] (d ∷ ds) h = elim h [ ]
  write_removals-Each s (r ∷ rs) [] h = elim h [ ]

  write_changes-Each :
      (s : Bytes) (rs : List ComponentChanges) (ds : List (ℕ × List (ℕ × Component)))
      → Each (IsChange w s) rs ds
      → write_changes w s rs ≡ ok (concat w change_bytes ds)
  unfolding write_changes Each concat
  write_changes-Each s [] [] h = refl
  write_changes-Each s (r ∷ rs) (d ∷ ds) h = rw (slice-Holds s r.entity _ h.0.entity) (
      rw (slices-HoldAll s r.components _ h.0.components) (
        rw (write_changes-Each s rs ds h.1) (
          rw (h.0.components_len)
            (ap ok (sym (append_three (serialize_entity w d.0) (w.varint (length d.1)) _ _))))))
  write_changes-Each s [] (d ∷ ds) h = elim h [ ]
  write_changes-Each s (r ∷ rs) [] h = elim h [ ]

  removals_size-Each :
      (s : Bytes) (rs : List ComponentRemovals) (ds : List (ℕ × List ℕ))
      → Each (IsRemoval w s) rs ds
      → removals_size w rs ≡ length (concat w removal_bytes ds)
  unfolding removals_size Each concat
  removals_size-Each s [] [] h = refl
  removals_size-Each s (r ∷ rs) (d ∷ ds) h =
      let id = serialize_entity w d.0 in
      let count = w.varint (length d.1) in
      let items = concat w w.fns_id d.1 in
      rw h.0.ids_len (
        omega (
          arith,
          len-Holds s r.entity _ h.0.entity,
          len-Holds s r.fn_ids _ h.0.fn_ids,
          removals_size-Each s rs ds h.1,
          length_three id count items (concat w removal_bytes ds),
        ))
  removals_size-Each s [] (d ∷ ds) h = elim h [ ]
  removals_size-Each s (r ∷ rs) [] h = elim h [ ]

  changes_size-Each :
      (s : Bytes) (rs : List ComponentChanges) (ds : List (ℕ × List (ℕ × Component)))
      → Each (IsChange w s) rs ds
      → changes_size w rs ≡ length (concat w change_bytes ds)
  unfolding changes_size components_size Each concat
  changes_size-Each s [] [] h = refl
  changes_size-Each s (r ∷ rs) (d ∷ ds) h =
      let id = serialize_entity w d.0 in
      let count = w.varint (length d.1) in
      let items = concat w (component_bytes w) d.1 in
      rw h.0.components_len (
        omega (
          arith,
          len-Holds s r.entity _ h.0.entity,
          sum_len-HoldAll s r.components _ h.0.components,
          changes_size-Each s rs ds h.1,
          length_three id count items (concat w change_bytes ds),
        ))
  changes_size-Each s [] (d ∷ ds) h = elim h [ ]
  changes_size-Each s (r ∷ rs) [] h = elim h [ ]

  module _ (s : Bytes) (m : UpdateMessage) (c : Content Component) (h : Represents w s m c) where
    section_bytes-eq : (f : Section) → section_bytes w s m f ≡ ok (content_bytes c f)
    unfolding section_bytes content_bytes
    section_bytes-eq Section.mappings = slice-Holds s m.mappings _ h.mappings
    section_bytes-eq Section.despawns = slices-HoldAll s m.despawns _ h.despawns
    section_bytes-eq Section.removals = write_removals-Each s m.removals c.removals h.removals
    section_bytes-eq Section.changes = write_changes-Each s m.changes c.changes h.changes

    section_size-eq : (f : Section) → section_size w m f ≡ length (content_bytes c f)
    unfolding section_size content_bytes
    section_size-eq Section.mappings = len-Holds s m.mappings _ h.mappings
    section_size-eq Section.despawns = sum_len-HoldAll s m.despawns _ h.despawns
    section_size-eq Section.removals = removals_size-Each s m.removals c.removals h.removals
    section_size-eq Section.changes = changes_size-Each s m.changes c.changes h.changes

    count-last : (f : Section) → section_count w m true f ≡ []
    unfolding section_count
    count-last Section.mappings = refl
    count-last Section.despawns = refl
    count-last Section.removals = refl
    count-last Section.changes = refl

    count-inner :
        (f : Section)
        → is_changes f ≡ false
        → section_count w m false f ≡ w.varint (content_len c f)
    unfolding section_count section_len content_len
    count-inner Section.mappings k = ap w.varint h.mappings_len
    count-inner Section.despawns k = ap w.varint h.despawns_len
    count-inner Section.removals k =
        ap w.varint (length-Each (IsRemoval w s) m.removals c.removals h.removals)
    count-inner Section.changes k = elim (false≢true (sym k)) [ ]

    pub write_sections-encode :
        (l : ℕ) (fs : List Section) (acc : Bytes)
        → Ends l fs
        → write_sections w l s m fs acc ≡ ok (some (acc ++ encode c fs))
    unfolding write_sections encode
    write_sections-encode l [] acc ends = elim ends [ ]
    write_sections-encode l (f ∷ []) acc ends =
        rw (ends.0, skipped-last f ends.1, section_bytes-eq f, count-last f) refl
    write_sections-encode l (f ∷ g ∷ fs) acc ends =
        rw (ends.0, skipped-inner f, section_bytes-eq f)
          (rw (count-inner f ends.1) (
            write_sections-encode l (g ∷ fs)
              (acc ++ (w.varint (content_len c f) ++ content_bytes c f)) ends.2
            ∙ ap (λ (b : Bytes). ok (some b))
                (append_three acc (w.varint (content_len c f)) (content_bytes c f)
                  (encode c (g ∷ fs)))))

    count_size-inner :
        (f : Section)
        → is_changes f ≡ false
        → count_size w m false f ≡ length (w.varint (content_len c f))
    unfolding count_size section_len content_len
    count_size-inner Section.mappings k = ap (λ (n : ℕ). length (w.varint n)) h.mappings_len
    count_size-inner Section.despawns k = ap (λ (n : ℕ). length (w.varint n)) h.despawns_len
    count_size-inner Section.removals k =
        ap (λ (n : ℕ). length (w.varint n))
          (length-Each (IsRemoval w s) m.removals c.removals h.removals)
    count_size-inner Section.changes k = elim (false≢true (sym k)) [ ]

    count_size-last : (f : Section) → count_size w m true f ≡ 0
    unfolding count_size
    count_size-last Section.mappings = refl
    count_size-last Section.despawns = refl
    count_size-last Section.removals = refl
    count_size-last Section.changes = refl

    pub sections_size-encode :
        (checks : Bool) (l : ℕ) (fs : List Section)
        → Ends l fs
        → sections_size w checks l m fs ≡ ok (length (encode c fs))
    unfolding sections_size encode
    sections_size-encode checks l [] ends = elim ends [ ]
    sections_size-encode checks l (f ∷ []) ends =
        rw (ends.0, check_last-last checks f)
          (ap ok (omega (arith, section_size-eq f, count_size-last f)))
    sections_size-encode checks l (f ∷ g ∷ fs) ends =
        rw (ends.0, check_last-inner checks f ends.1, sections_size-encode checks l (g ∷ fs) ends.2)
          (ap ok (
            omega (
              arith,
              section_size-eq f,
              count_size-inner f ends.1,
              length-append (w.varint (content_len c f)) (content_bytes c f ++ encode c (g ∷ fs)),
              length-append (content_bytes c f) (encode c (g ∷ fs)),
            )))
