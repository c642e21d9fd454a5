-- ===== src/Markers/Registry.antt =====
-- core/replication/replication_registry.rs and the registration of core/replication/command_markers.rs: the
-- functions of the replicated components, and of the rules. `R` stands for the functions of a rule.
use bevy_mod_replication.Common.{
  ℕ, suc, ◌+◌, Bool, Option, none, some, List, [], ◌∷◌, ◌++◌, length, get_elem?, set, ◌==◌,
  if◌then◌else◌, Outcome, ok, ◌>>=◌, expect,
}
use bevy_mod_replication.Markers.{CommandMarker, insert, marker_id}
use bevy_mod_replication.Markers.Fns.{
  ComponentFns, new, add_marker_slot, set_marker_fns, set_command_fns,
}

pub record ReplicationRegistry (F R : Type 0) : Type 0 where
  pub components : List (ℕ × ComponentFns F)
  pub rules : List (R × ℕ)
  pub marker_slots : ℕ

abbrev pub after_first : Option ℕ → Option ℕ
after_first none = none
after_first (some index) = some (suc index)

module _ {F : Type 0} where
  unfoldable pub add_slots : ℕ → List (ℕ × ComponentFns F) → Outcome (List (ℕ × ComponentFns F))
  unfolding add_marker_slot
  add_slots index [] = ok []
  add_slots index ((id, fns) ∷ rest) = add_marker_slot fns index >>= λ added.
      add_slots index rest >>= λ others. ok ((id, added) ∷ others)

  -- `Iterator::position`.
  unfoldable pub position : ℕ → List (ℕ × ComponentFns F) → Option ℕ
  position component_id [] = none
  position component_id ((id, fns) ∷ rest) =
      let later = after_first (position component_id rest) in
      if id == component_id then some 0 else later

module _ {F R : Type 0} where
  unfoldable pub default : ReplicationRegistry F R
  default = record { components = []; rules = []; marker_slots = 0 }

  unfoldable pub register_marker : ReplicationRegistry F R → ℕ → Outcome (ReplicationRegistry F R)
  unfolding add_slots
  register_marker registry marker_id = add_slots marker_id registry.components >>= λ components.
      ok (record registry { components = components; marker_slots = registry.marker_slots + 1 })

  -- What is there for the index, or the registry with new functions and their index.
  unfoldable pub or_insert :
      ReplicationRegistry F R → F → ℕ → Option ℕ → ReplicationRegistry F R × ℕ
  or_insert registry default_fns component_id (some index) = (registry, index)
  or_insert registry default_fns component_id none = (
    record registry {
      components =
          registry.components ++ ((component_id, new default_fns registry.marker_slots) ∷ []);
    },
    length registry.components,
  )

  -- The id and the default functions of the component are arguments.
  unfoldable pub init_component_fns : ReplicationRegistry F R → F → ℕ → ReplicationRegistry F R × ℕ
  unfolding position or_insert
  init_component_fns registry default_fns component_id =
      or_insert registry default_fns component_id (position component_id registry.components)

  -- An update of the functions at an index, which is a panic out of range.
  unfoldable pub update_at :
      (ComponentFns F → Outcome (ComponentFns F))
      → ℕ
      → ReplicationRegistry F R
      → Outcome (ReplicationRegistry F R)
  update_at f index registry = expect (get_elem? registry.components index) >>= λ component.
      f component.1 >>= λ fns.
      ok (record registry { components = set registry.components index (component.0, fns) })

  unfoldable pub set_marker_fns_for :
      Bool → ReplicationRegistry F R → F → ℕ → ℕ → F → Outcome (ReplicationRegistry F R)
  unfolding init_component_fns update_at
  set_marker_fns_for checks registry default_fns component_id marker_id command_fns =
      let r = init_component_fns registry default_fns component_id in
      update_at (λ fns. set_marker_fns checks fns marker_id command_fns) r.1 r.0

  unfoldable pub set_command_fns_for :
      ReplicationRegistry F R → F → ℕ → F → Outcome (ReplicationRegistry F R)
  unfolding init_component_fns update_at
  set_command_fns_for registry default_fns component_id command_fns =
      let r = init_component_fns registry default_fns component_id in
      update_at (λ fns. ok (set_command_fns fns command_fns)) r.1 r.0

  -- With the `FnsId`.
  unfoldable pub register_rule_fns :
      ReplicationRegistry F R → F → ℕ → R → ReplicationRegistry F R × ℕ
  unfolding init_component_fns
  register_rule_fns registry default_fns component_id rule_fns =
      let r = init_component_fns registry default_fns component_id in
      (record r.0 { rules = r.0.rules ++ ((rule_fns, r.1) ∷ []) }, length r.0.rules)

  -- `get`. The access to the components is unchecked in the source; out of range is a panic here.
  unfoldable pub get : ReplicationRegistry F R → ℕ → Outcome (ℕ × ComponentFns F × R)
  get registry fns_id = expect (get_elem? registry.rules fns_id) >>= λ rule.
      expect (get_elem? registry.components rule.1) >>= λ component.
      ok (component.0, component.1, rule.0)

-- `CommandMarkers` and `ReplicationRegistry` of the app.
pub record App (F R : Type 0) : Type 0 where
  pub markers : List CommandMarker
  pub registry : ReplicationRegistry F R

module _ {F R : Type 0} (binary_search : List CommandMarker → ℕ → ℕ) where
  unfoldable pub register_marker_with : App F R → CommandMarker → Outcome (App F R)
  unfolding insert register_marker
  register_marker_with app marker = insert binary_search app.markers marker >>= λ r.
      register_marker app.registry r.1 >>= λ registry.
      ok (record { markers = r.0; registry = registry })

module _ {F R : Type 0} where
  unfoldable pub set_app_marker_fns : Bool → App F R → ℕ → F → ℕ → F → Outcome (App F R)
  unfolding marker_id set_marker_fns_for
  set_app_marker_fns checks app marker default_fns component_id command_fns =
      marker_id app.markers marker >>= λ index.
      set_marker_fns_for checks app.registry default_fns component_id index command_fns
      >>= λ registry. ok (record app { registry = registry })

  unfoldable pub set_app_command_fns : App F R → F → ℕ → F → Outcome (App F R)
  unfolding set_command_fns_for
  set_app_command_fns app default_fns component_id command_fns =
      set_command_fns_for app.registry default_fns component_id command_fns >>= λ registry.
      ok (record app { registry = registry })
