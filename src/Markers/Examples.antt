-- ===== src/Markers/Examples.antt =====
-- core/replication/command_markers.rs: the theorems at two markers.
use bevy_mod_replication.Common.{
  ℕ, suc, ◌≤◌, ◌<◌, ◌≡◌, refl, Bool, true, false, some, List, [], ◌∷◌, length, All, get_elem?, leb,
  leb→le, if◌then◌else◌, ok, ◌⊎◌, arith, Bool-cases, inl, inr,
}
use bevy_mod_replication.Common.Descending.{IsDescending, IsSearch}
use bevy_mod_replication.Markers.{CommandMarker, read}
use bevy_mod_replication.Markers.Fns.{ComponentFns, chosen}
use bevy_mod_replication.Markers.Registry.{
  App, default, register_marker_with, register_rule_fns, get,
}
use bevy_mod_replication.Markers.Selection.{IsCandidate, chosen-read}
use bevy_mod_replication.Markers.Aligned.{IsAligned, register_marker_with-chosen}
use bevy_mod_replication.Markers.Reached.{IsReached, initial, rule, reached-get}

-- The index behind the markers of this priority or a higher one.
abbrev search : List CommandMarker → ℕ → ℕ
search [] priority = 0
search (m ∷ rest) priority = if leb priority m.priority then suc (search rest priority) else 0

all_lower :
    (k p : ℕ) (items : List CommandMarker)
    → p < k
    → All (λ m. m.priority ≤ p) items
    → All (λ m. m.priority ≤ k) items
all_lower k p [] h a = tt
all_lower k p (m ∷ rest) h a = (omega (arith, h, a.0), all_lower k p rest h a.1)

search-IsSearch : IsSearch (λ m. m.priority) search
unfolding IsDescending
search-IsSearch [] k d = (omega arith, tt, tt)
search-IsSearch (m ∷ rest) k d = elim (Bool-cases (leb k m.priority)) [
  | inl higher ↦
      let (le, before, after) = search-IsSearch rest k d.1 in
      rw higher (omega (arith, le), (leb→le k m.priority higher, before), after)
  | inr lower ↦
      let less : m.priority < k = ground (arith, lower) in
      rw lower (omega arith, tt, (omega (arith, less), all_lower k m.priority rest less d.0))
]

-- The functions of a component are numbers.
abbrev low_marker : CommandMarker
low_marker = record { component_id = 1; priority = 1; need_history = false }

abbrev high_marker : CommandMarker
high_marker = record { component_id = 2; priority = 5; need_history = true }

abbrev app : App ℕ ℕ
app = record {
  markers = low_marker ∷ [];
  registry = record {
    components = (9, record { commands = 100; markers = some 101 ∷ [] }) ∷ [];
    rules = (7, 0) ∷ [];
    marker_slots = 1;
  };
}

app-IsAligned : IsAligned app
unfolding IsAligned IsDescending
app-IsAligned = ((tt, tt), refl, (refl, tt), (omega arith, tt))

register_marker_with-chosen_example :
    (app' : App ℕ ℕ) × (register_marker_with search app high_marker ≡ ok app')
    × IsAligned app'
    × ((contains_id : ℕ → Bool) (k id : ℕ) (fns : ComponentFns ℕ)
        → get_elem? app.registry.components k ≡ some (id, fns)
        → (fns' : ComponentFns ℕ) × (get_elem? app'.registry.components k ≡ some (id, fns'))
          × (chosen fns' (read app'.markers contains_id).markers
              ≡ chosen fns (read app.markers contains_id).markers))
register_marker_with-chosen_example =
    register_marker_with-chosen search search-IsSearch app high_marker app-IsAligned

abbrev both : ComponentFns ℕ
both = record { commands = 100; markers = some 102 ∷ some 101 ∷ [] }

abbrev two_markers : List CommandMarker
two_markers = high_marker ∷ low_marker ∷ []

abbrev has_both : ℕ → Bool
has_both id = true

two_markers-IsDescending : IsDescending (λ (m : CommandMarker). m.priority) two_markers
unfolding IsDescending
two_markers-IsDescending = ((omega arith, tt), (tt, tt))

chosen-read_example :
    ((chosen both (read two_markers has_both).markers ≡ both.commands)
      × ((i : ℕ) (m : CommandMarker) (f : ℕ)
          → IsCandidate has_both two_markers both.markers i m f
          → ⊥))
    ⊎ ((i : ℕ) × (m : CommandMarker) × IsCandidate has_both two_markers both.markers i m
          (chosen both (read two_markers has_both).markers)
        × ((j : ℕ) (m' : CommandMarker) (f' : ℕ)
            → IsCandidate has_both two_markers both.markers j m' f'
            → m'.priority ≤ m.priority))
chosen-read_example = chosen-read has_both two_markers both two_markers-IsDescending

-- One rule of a component is registered.
abbrev with_rule : App ℕ ℕ
with_rule = record { markers = []; registry = (register_rule_fns default 100 9 7).0 }

with_rule-IsReached : IsReached search true with_rule
with_rule-IsReached = rule (record { markers = []; registry = default }) 100 9 7 initial

reached-get_example :
    IsAligned with_rule
    × ((fns_id : ℕ)
        → fns_id < length with_rule.registry.rules
        → (component_id : ℕ) × (fns : ComponentFns ℕ) × (rule_fns : ℕ) × (get with_rule.registry
              fns_id
            ≡ ok (component_id, fns, rule_fns)))
reached-get_example = reached-get search search-IsSearch true with_rule with_rule-IsReached
