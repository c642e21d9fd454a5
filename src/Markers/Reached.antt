-- ===== src/Markers/Reached.antt =====
-- core/replication/replication_registry.rs: what holds of the registry after any registrations.
use bevy_mod_replication.Common.{
  ℕ, ◌<◌, ◌≡◌, refl, subst, Bool, List, [], length, Outcome, ok, get_elem?-lt, >>=-ok,
}
use bevy_mod_replication.Common.Descending.{IsDescending, IsSearch}
use bevy_mod_replication.Markers.{CommandMarker, marker_id}
use bevy_mod_replication.Markers.Fns.{ComponentFns, set_marker_fns, set_command_fns}
use bevy_mod_replication.Markers.Registry.{
  ReplicationRegistry, App, default, register_marker_with, init_component_fns, update_at,
  register_rule_fns, get, set_app_marker_fns, set_app_command_fns, set_marker_fns_for,
  set_command_fns_for,
}
use bevy_mod_replication.Markers.Aligned.{IsAligned, register_marker_with-chosen, get_elem?-All}
use bevy_mod_replication.Markers.Kept.{
  IsRegistry, set_marker_fns-length, init_component_fns-IsRegistry, update_at-IsRegistry,
  register_rule_fns-IsRegistry, command_fns-length,
}

module _ {F R : Type 0} where
  -- The registry changes and the markers stay.
  with_registry :
      (app app' : App F R) (registry : ReplicationRegistry F R)
      → IsAligned app
      → IsRegistry (length app.markers) registry
      → ◌≡◌ {A = Outcome (App F R)} (ok (record app { registry = registry })) (ok app')
      → IsAligned app'
  unfolding IsAligned
  with_registry app app' registry aligned known e =
      let same : ◌≡◌ {A = App F R} (record app { registry = registry }) app' = cc in
      subst IsAligned same (aligned.0, known.0, known.1, known.2)

  set_app_marker_fns-IsAligned :
      (checks : Bool) (app app' : App F R) (m : ℕ) (default_fns : F) (component_id : ℕ) (fns : F)
      → IsAligned app
      → set_app_marker_fns checks app m default_fns component_id fns ≡ ok app'
      → IsAligned app'
  unfolding IsAligned set_app_marker_fns set_marker_fns_for
  set_app_marker_fns-IsAligned checks app app' m default_fns component_id fns aligned run =
      let (index, found, then_set) = >>=-ok (marker_id app.markers m) _ app' run in
      let r = init_component_fns app.registry default_fns component_id in
      let (registry, updated, e) =
        >>=-ok (update_at (λ old. set_marker_fns checks old index fns) r.1 r.0) _ app' then_set in
      let (known, same, there) =
        init_component_fns-IsRegistry (length app.markers) app.registry default_fns component_id
          (aligned.1, aligned.2, aligned.3) in
      with_registry app app' registry aligned
        (update_at-IsRegistry (λ old. set_marker_fns checks old index fns)
          (set_marker_fns-length checks index fns) (length app.markers) r.1 r.0 registry known
          updated)
        e

  set_app_command_fns-IsAligned :
      (app app' : App F R) (default_fns : F) (component_id : ℕ) (fns : F)
      → IsAligned app
      → set_app_command_fns app default_fns component_id fns ≡ ok app'
      → IsAligned app'
  unfolding IsAligned set_app_command_fns set_command_fns_for set_command_fns
  set_app_command_fns-IsAligned app app' default_fns component_id fns aligned run =
      let r = init_component_fns app.registry default_fns component_id in
      let (registry, updated, e) =
        >>=-ok (update_at (λ old. ok (set_command_fns old fns)) r.1 r.0) _ app' run in
      let (known, same, there) =
        init_component_fns-IsRegistry (length app.markers) app.registry default_fns component_id
          (aligned.1, aligned.2, aligned.3) in
      with_registry app app' registry aligned
        (update_at-IsRegistry (λ old. ok (set_command_fns old fns)) (command_fns-length fns)
          (length app.markers) r.1 r.0 registry known updated)
        e

-- What registrations that return lead to, from an app without any.
pub data IsReached {F R : Type 0} (binary_search : List CommandMarker → ℕ → ℕ) (checks : Bool)
    : App F R → Type 0 where
  initial : IsReached binary_search checks (record { markers = []; registry = default })
  marker :
      (app app' : App F R) (m : CommandMarker)
      → IsReached binary_search checks app
      → register_marker_with binary_search app m ≡ ok app'
      → IsReached binary_search checks app'
  marker_fns :
      (app app' : App F R) (m : ℕ) (default_fns : F) (component_id : ℕ) (command_fns : F)
      → IsReached binary_search checks app
      → set_app_marker_fns checks app m default_fns component_id command_fns ≡ ok app'
      → IsReached binary_search checks app'
  command_fns :
      (app app' : App F R) (default_fns : F) (component_id : ℕ) (fns : F)
      → IsReached binary_search checks app
      → set_app_command_fns app default_fns component_id fns ≡ ok app'
      → IsReached binary_search checks app'
  rule :
      (app : App F R) (default_fns : F) (component_id : ℕ) (rule_fns : R)
      → IsReached binary_search checks app
      → IsReached binary_search checks (record app {
        registry = (register_rule_fns app.registry default_fns component_id rule_fns).0;
      })

module _ {F R : Type 0} (binary_search : List CommandMarker → ℕ → ℕ)
    (searches : IsSearch (λ m. m.priority) binary_search) (checks : Bool) where
  reached-IsAligned : (app : App F R) → IsReached binary_search checks app → IsAligned app
  unfolding IsAligned default IsDescending
  reached-IsAligned _ initial = (tt, refl, tt, tt)
  reached-IsAligned _ (marker app app' m before run) =
      let (next, ran, aligned, kept) =
        register_marker_with-chosen binary_search searches app m (reached-IsAligned app before) in
      let same : next ≡ app' = cc in subst IsAligned same aligned
  reached-IsAligned _ (marker_fns app app' m default_fns component_id fns before run) =
      set_app_marker_fns-IsAligned checks app app' m default_fns component_id fns
        (reached-IsAligned app before) run
  reached-IsAligned _ (command_fns app app' default_fns component_id fns before run) =
      set_app_command_fns-IsAligned app app' default_fns component_id fns
        (reached-IsAligned app before) run
  reached-IsAligned _ (rule app default_fns component_id rule_fns before) =
      let aligned = reached-IsAligned app before in
      let known =
        register_rule_fns-IsRegistry (length app.markers) app.registry default_fns component_id
          rule_fns (aligned.1, aligned.2, aligned.3) in
      (aligned.0, known.0, known.1, known.2)

  -- With a binary search that gives an index for the priority in a list in descending order: after any
  -- registrations that return, the markers are in descending order of priority, every component
  -- has exactly one slot for each of them, and looking up any id of a rule that was given out
  -- returns, so that the unchecked access to its component is in range.
  pub reached-get :
      (app : App F R)
      → IsReached binary_search checks app
      → IsAligned app
        × ((fns_id : ℕ)
            → fns_id < length app.registry.rules
            → (component_id : ℕ) × (fns : ComponentFns F) × (rule_fns : R) × (get app.registry
                  fns_id
                ≡ ok (component_id, fns, rule_fns)))
  unfolding get IsAligned
  reached-get app reached =
      let aligned = reached-IsAligned app reached in
      (
        aligned,
        λ fns_id less.
            let (r, there) = get_elem?-lt app.registry.rules fns_id less in
            let (c, found) = get_elem?-lt app.registry.components r.1 (
              get_elem?-All (λ x. x.1 < length app.registry.components) app.registry.rules fns_id r
                aligned.3 there) in
            (c.0, c.1, r.0, rw (there, found) refl),
      )
