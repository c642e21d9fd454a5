-- ===== src/Markers/Selection.antt =====
-- core/replication/command_markers.rs and component_fns.rs: which functions are chosen for an entity.
use bevy_mod_replication.Common.{
  ℕ, zero, suc, ◌≤◌, ◌≡◌, refl, sym, ap, ◌∙◌, subst, Bool, true, false, ◌&&◌, ◌||◌, Option, none,
  some, List, [], ◌∷◌, ◌++◌, map, any, get_elem?, if◌then◌else◌, ◌⊎◌, arith, append-nil,
  append_assoc, Bool-cases, inl, inr,
}
use bevy_mod_replication.Common.Descending.{IsDescending, descending-le}
use bevy_mod_replication.Markers.{CommandMarker, EntityMarkers, read_each, read}
use bevy_mod_replication.Markers.Fns.{ComponentFns, find_fns, chosen}

-- Which markers the entity has.
abbrev pub presence : (ℕ → Bool) → List CommandMarker → List Bool
presence contains_id markers = map (λ m. contains_id m.component_id) markers

either :
    (a b c : Bool) → (if b then true else (if a then true else c)) ≡ (if a || b then true else c)
either true true c = refl
either true false c = refl
either false true c = refl
either false false c = refl

read_each-presence :
    (contains_id : ℕ → Bool) (markers : List CommandMarker) (before : EntityMarkers)
    → read_each contains_id markers before ≡ record {
      markers = before.markers ++ presence contains_id markers;
      need_history =
          if any (λ m. contains_id m.component_id && m.need_history) markers
          then true
          else before.need_history;
    }
unfolding read_each
read_each-presence contains_id [] before = rw (append-nil before.markers) refl
read_each-presence contains_id (m ∷ rest) before =
    rw
      (
        read_each-presence contains_id rest (record {
          markers = before.markers ++ (contains_id m.component_id ∷ []);
          need_history =
              if contains_id m.component_id && m.need_history then true else before.need_history;
        }),
        append_assoc before.markers (contains_id m.component_id ∷ []) (presence contains_id rest),
      )
      (ap
        (λ (flag : Bool). record {
          markers = before.markers ++ (contains_id m.component_id ∷ presence contains_id rest);
          need_history = flag;
        })
        (either (contains_id m.component_id && m.need_history)
          (any (λ x. contains_id x.component_id && x.need_history) rest) before.need_history))

pub read-presence :
    (markers : List CommandMarker) (contains_id : ℕ → Bool)
    → (read markers contains_id).markers ≡ presence contains_id markers
unfolding read
read-presence markers contains_id =
    ap (λ r. r.markers)
      (read_each-presence contains_id markers (record { markers = []; need_history = false }))

-- At an index stand a marker that the entity has and functions for it.
abbrev pub IsCandidate :
    {F : Type 0}
    → (ℕ → Bool)
    → List CommandMarker
    → List (Option F)
    → ℕ
    → CommandMarker
    → F
    → Type 0
IsCandidate contains_id markers slots i m f =
    (get_elem? markers i ≡ some m)
    × (contains_id m.component_id ≡ true)
    × (get_elem? slots i ≡ some (some f))

no_marker : (i : ℕ) (m : CommandMarker) → get_elem? [] i ≡ some m → ⊥
no_marker i m h = cc

module _ {F : Type 0} (contains_id : ℕ → Bool) where
  -- No candidate, or the first one.
  abbrev First : List CommandMarker → List (Option F) → Type 0
  First markers slots =
      ((find_fns slots (presence contains_id markers) ≡ none)
        × ((i : ℕ) (m : CommandMarker) (f : F) → IsCandidate contains_id markers slots i m f → ⊥))
      ⊎ ((i : ℕ) × (m : CommandMarker) × (f : F) × IsCandidate contains_id markers slots i m f
          × (find_fns slots (presence contains_id markers) ≡ some f)
          × ((j : ℕ) (m' : CommandMarker) (f' : F)
              → IsCandidate contains_id markers slots j m' f'
              → i ≤ j))

  no_slot : (i : ℕ) (a : Option F) → get_elem? [] i ≡ some a → ⊥
  no_slot i a h = cc

  module _ (m : CommandMarker) (slot : Option F) (markers : List CommandMarker)
      (slots : List (Option F))
      (not_first : (f : F) → contains_id m.component_id ≡ true → slot ≡ some f → ⊥) where
    no_candidate :
        ((i : ℕ) (m' : CommandMarker) (f : F) → IsCandidate contains_id markers slots i m' f → ⊥)
        → (i : ℕ) (m' : CommandMarker) (f : F)
        → IsCandidate contains_id (m ∷ markers) (slot ∷ slots) i m' f
        → ⊥
    no_candidate h zero m' f c =
        let has : contains_id m.component_id ≡ true = cc in
        let is : slot ≡ some f = cc in not_first f has is
    no_candidate h (suc i) m' f c = h i m' f c

    later_candidate :
        (i : ℕ)
        → ((j : ℕ) (m' : CommandMarker) (f : F)
            → IsCandidate contains_id markers slots j m' f
            → i ≤ j)
        → (j : ℕ) (m' : CommandMarker) (f : F)
        → IsCandidate contains_id (m ∷ markers) (slot ∷ slots) j m' f
        → suc i ≤ j
    later_candidate i h zero m' f c =
        let has : contains_id m.component_id ≡ true = cc in
        let is : slot ≡ some f = cc in absurd (not_first f has is)
    later_candidate i h (suc j) m' f c = let le = h j m' f c in omega (arith, le)

    First-later :
        find_fns (slot ∷ slots) (presence contains_id (m ∷ markers))
          ≡ find_fns slots (presence contains_id markers)
        → First markers slots
        → First (m ∷ markers) (slot ∷ slots)
    First-later e (inl (nothing, none_there)) = inl (e ∙ nothing, no_candidate none_there)
    First-later e (inr (i, m', f, there, found, first)) =
        inr (suc i, m', f, there, e ∙ found, later_candidate i first)

  find_fns-First : (markers : List CommandMarker) (slots : List (Option F)) → First markers slots
  unfolding find_fns
  find_fns-First [] [] = inl (refl, λ i m f h. no_slot i (some f) h.2)
  find_fns-First (m ∷ markers) [] = inl (refl, λ i m' f h. no_slot i (some f) h.2)
  find_fns-First [] (slot ∷ slots) = inl (refl, λ i m f h. no_marker i m h.0)
  find_fns-First (m ∷ markers) (none ∷ slots) =
      First-later m none markers slots (λ f h e. cc)
        (elim (Bool-cases (contains_id m.component_id)) [
          | inl has ↦ rw has refl
          | inr not ↦ rw not refl
        ])
        (find_fns-First markers slots)
  find_fns-First (m ∷ markers) (some f ∷ slots) = elim (Bool-cases (contains_id m.component_id)) [
    | inl has ↦ inr (0, m, f, (refl, has, refl), rw has refl, λ j m' f' h. omega arith)
    | inr without ↦
        First-later m (some f) markers slots (λ f' h e. cc) (rw without refl)
          (find_fns-First markers slots)
  ]

-- While the markers are in descending order of priority: the functions that are chosen for an entity
-- are those of a marker that the entity has, and no marker of the entity that has functions too for
-- the component has a higher priority; or no marker of the entity has functions for it, and the
-- default is chosen.
pub chosen-read :
    {F : Type 0} (contains_id : ℕ → Bool) (markers : List CommandMarker) (fns : ComponentFns F)
    → IsDescending (λ m. m.priority) markers
    → ((chosen fns (read markers contains_id).markers ≡ fns.commands)
        × ((i : ℕ) (m : CommandMarker) (f : F)
            → IsCandidate contains_id markers fns.markers i m f
            → ⊥))
      ⊎ ((i : ℕ) × (m : CommandMarker) × IsCandidate contains_id markers fns.markers i m
            (chosen fns (read markers contains_id).markers)
          × ((j : ℕ) (m' : CommandMarker) (f' : F)
              → IsCandidate contains_id markers fns.markers j m' f'
              → m'.priority ≤ m.priority))
unfolding chosen
chosen-read contains_id markers fns descending =
    elim (find_fns-First contains_id markers fns.markers) [
      | inl (nothing, none_there) ↦
          inl (rw (read-presence markers contains_id, nothing) refl, none_there)
      | inr (i, m, f, there, found, first) ↦
          let is : chosen fns (read markers contains_id).markers ≡ f =
            rw (read-presence markers contains_id, found) refl in
          inr (
            i,
            m,
            subst (IsCandidate contains_id markers fns.markers i m) (sym is) there,
            λ j m' f' c.
                descending-le (λ x. x.priority) markers i j m m' descending (first j m' f' c)
                  there.0 c.0,
          )
    ]
