-- ===== src/Markers/Aligned.antt =====
-- core/replication/command_markers.rs and replication_registry.rs: the slots of every component stay
-- aligned with the markers, whose indices change with each registration.
use bevy_mod_replication.Common.{
  ℕ, zero, suc, ◌+◌, ◌≤◌, ◌<◌, ◌≡◌, refl, ap, ◌∙◌, subst, Bool, Option, none, some, List, [], ◌∷◌,
  map, length, All, get_elem?, ok, arith, Bool-cases, inl, inr,
}
use bevy_mod_replication.Common.Descending.{IsDescending, IsSearch, placed, placed-IsDescending}
use bevy_mod_replication.Markers.{CommandMarker, insert_at, insert, read}
use bevy_mod_replication.Markers.Fns.{ComponentFns, add_marker_slot, find_fns, chosen}
use bevy_mod_replication.Markers.Registry.{App, add_slots, register_marker, register_marker_with}
use bevy_mod_replication.Markers.Selection.{presence, read-presence}

insert_at-placed :
    {A : Type 0} (i : ℕ) (a : A) (xs : List A)
    → i ≤ length xs
    → insert_at i a xs ≡ ok (placed i a xs)
unfolding insert_at
insert_at-placed zero a xs h = refl
insert_at-placed (suc i) a [] h = absurd (omega (arith, h))
insert_at-placed (suc i) a (x ∷ xs) h = rw (insert_at-placed i a xs (omega (arith, h))) refl

length-placed :
    {A : Type 0} (i : ℕ) (a : A) (xs : List A)
    → i ≤ length xs
    → length (placed i a xs) ≡ suc (length xs)
length-placed zero a xs h = refl
length-placed (suc i) a [] h = absurd (omega (arith, h))
length-placed (suc i) a (x ∷ xs) h = ap suc (length-placed i a xs (omega (arith, h)))

-- A slot without functions changes no choice.
find_fns-placed :
    {F : Type 0} (contains_id : ℕ → Bool) (i : ℕ) (m : CommandMarker) (markers : List CommandMarker)
    (slots : List (Option F))
    → i ≤ length markers
    → i ≤ length slots
    → find_fns (placed i none slots) (presence contains_id (placed i m markers))
      ≡ find_fns slots (presence contains_id markers)
unfolding find_fns
find_fns-placed contains_id zero m markers slots h k =
    elim (Bool-cases (contains_id m.component_id)) [ inl has ↦ rw has refl | inr out ↦ rw out refl ]
find_fns-placed contains_id (suc i) m [] slots h k = absurd (omega (arith, h))
find_fns-placed contains_id (suc i) m (x ∷ markers) [] h k = absurd (omega (arith, k))
find_fns-placed contains_id (suc i) m (x ∷ markers) (slot ∷ slots) h k =
    rw (find_fns-placed contains_id i m markers slots (omega (arith, h)) (omega (arith, k))) refl

-- Each component with one more slot, at the same index.
abbrev add_slot : {F : Type 0} → ℕ → ℕ × ComponentFns F → ℕ × ComponentFns F
add_slot i c = (c.0, record c.1 { markers = placed i none c.1.markers })

abbrev slotted : {F : Type 0} → ℕ → List (ℕ × ComponentFns F) → List (ℕ × ComponentFns F)
slotted i components = map (add_slot i) components

add_slots-slotted :
    {F : Type 0} (i n : ℕ) (components : List (ℕ × ComponentFns F))
    → i ≤ n
    → All (λ c. length c.1.markers ≡ n) components
    → add_slots i components ≡ ok (slotted i components)
unfolding add_slots add_marker_slot
add_slots-slotted i n [] h aligned = refl
add_slots-slotted i n ((id, fns) ∷ rest) h aligned =
    rw
      (
        insert_at-placed i none fns.markers (omega (arith, h, aligned.0)),
        add_slots-slotted i n rest h aligned.1,
      )
      refl

slotted-aligned :
    {F : Type 0} (i n : ℕ) (components : List (ℕ × ComponentFns F))
    → i ≤ n
    → All (λ c. length c.1.markers ≡ n) components
    → All (λ c. length c.1.markers ≡ suc n) (slotted i components)
slotted-aligned i n [] h aligned = tt
slotted-aligned i n (c ∷ rest) h aligned = (
  length-placed i none c.1.markers (omega (arith, h, aligned.0)) ∙ ap suc aligned.0,
  slotted-aligned i n rest h aligned.1,
)

-- Markers are in descending order of priority; each component has a slot for each marker, in the same
-- place; and the component of each rule is there.
unfoldable pub IsAligned : {F R : Type 0} → App F R → Type 0
IsAligned app =
    IsDescending (λ m. m.priority) app.markers
    × (app.registry.marker_slots ≡ length app.markers)
    × All (λ c. length c.1.markers ≡ length app.markers) app.registry.components
    × All (λ r. r.1 < length app.registry.components) app.registry.rules

get_elem?-slotted :
    {F : Type 0} (i k : ℕ) (components : List (ℕ × ComponentFns F)) (id : ℕ) (fns : ComponentFns F)
    → get_elem? components k ≡ some (id, fns)
    → get_elem? (slotted i components) k
      ≡ some (id, record fns { markers = placed i none fns.markers })
get_elem?-slotted i k [] id fns e = absurd cc
get_elem?-slotted {F} i zero (c ∷ rest) id fns e =
    let same : c ≡ (id, fns) = cc in ap (λ (d : ℕ × ComponentFns F). some (add_slot i d)) same
get_elem?-slotted i (suc k) (c ∷ rest) id fns e = get_elem?-slotted i k rest id fns e

pub get_elem?-All :
    {A : Type 0} (P : A → Type 0) (items : List A) (i : ℕ) (a : A)
    → All P items
    → get_elem? items i ≡ some a
    → P a
get_elem?-All P [] i a h e = absurd cc
get_elem?-All P (x ∷ items) zero a h e = let same : x ≡ a = cc in subst P same h.0
get_elem?-All P (x ∷ items) (suc i) a h e = get_elem?-All P items i a h.1 e

length-slotted :
    {F : Type 0} (i : ℕ) (components : List (ℕ × ComponentFns F))
    → length (slotted i components) ≡ length components
length-slotted i [] = refl
length-slotted i (c ∷ rest) = ap suc (length-slotted i rest)

module _ {F R : Type 0} (binary_search : List CommandMarker → ℕ → ℕ)
    (searches : IsSearch (λ m. m.priority) binary_search) where
  -- With a binary search that gives an index for the priority in a list in descending order: where the
  -- components' slots are aligned with the markers, registering a marker does not panic and
  -- keeps them aligned, though it may move the markers behind it; and for every component and entity the
  -- functions that are chosen stay the same, whether or not the entity has the new marker.
  pub register_marker_with-chosen :
      (app : App F R) (marker : CommandMarker)
      → IsAligned app
      → (app' : App F R) × (register_marker_with binary_search app marker ≡ ok app')
        × IsAligned app'
        × ((contains_id : ℕ → Bool) (k id : ℕ) (fns : ComponentFns F)
            → get_elem? app.registry.components k ≡ some (id, fns)
            → (fns' : ComponentFns F) × (get_elem? app'.registry.components k ≡ some (id, fns'))
              × (chosen fns' (read app'.markers contains_id).markers
                  ≡ chosen fns (read app.markers contains_id).markers))
  unfolding register_marker_with register_marker insert IsAligned chosen
  register_marker_with-chosen app marker (descending, slots, aligned, rules) =
      let i = binary_search app.markers marker.priority in
      let (i_le, before, after) = searches app.markers marker.priority descending in
      let longer = length-placed i marker app.markers i_le in
      (
        record {
          markers = placed i marker app.markers;
          registry = record app.registry {
            components = slotted i app.registry.components;
            marker_slots = app.registry.marker_slots + 1;
          };
        },
        rw
            (
              insert_at-placed i marker app.markers i_le,
              add_slots-slotted i (length app.markers) app.registry.components i_le aligned,
            )
            refl,
        (
          placed-IsDescending (λ m. m.priority) i marker app.markers descending before after,
          omega (arith, slots, longer),
          rw longer (slotted-aligned i (length app.markers) app.registry.components i_le aligned),
          rw (length-slotted i app.registry.components) rules,
        ),
        λ contains_id k id fns e.
            let same_length : length fns.markers ≡ length app.markers =
              get_elem?-All (λ c. length c.1.markers ≡ length app.markers) app.registry.components k
                (id, fns) aligned e in
            (
              record fns { markers = placed i none fns.markers },
              get_elem?-slotted i k app.registry.components id fns e,
              rw
                  (
                    read-presence (placed i marker app.markers) contains_id,
                    read-presence app.markers contains_id,
                    find_fns-placed contains_id i marker app.markers fns.markers i_le
                        (omega (arith, i_le, same_length)),
                  )
                  refl,
            ),
      )
