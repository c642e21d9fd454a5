-- ===== src/Markers/Fns.antt =====
-- core/replication/replication_registry/component_fns.rs: the functions of a component, a default and
-- those of markers. `F` stands for the pair of a writing and a removing function; the functions
-- that only restore a type are left out, and so is the call of the function that is chosen.
use bevy_mod_replication.Common.{
  ℕ, Bool, true, false, Option, none, some, List, [], ◌∷◌, replicate, get_elem?, set, if◌then◌else◌,
  Outcome, ok, panic, ◌>>=◌, debug_assert,
}
use bevy_mod_replication.Markers.{insert_at}

pub record ComponentFns (F : Type 0) : Type 0 where
  pub commands : F
  pub markers : List (Option F)

abbrev pub or_else : {F : Type 0} → Option F → Option F → Option F
or_else (some f) other = some f
or_else none other = other

abbrev pub unwrap_or : {F : Type 0} → Option F → F → F
unwrap_or (some f) other = f
unwrap_or none other = other

abbrev pub is_none : {F : Type 0} → Option F → Bool
is_none none = true
is_none (some f) = false

module _ {F : Type 0} where
  -- `default_fns` of the component is an argument.
  unfoldable pub new : F → ℕ → ComponentFns F
  new default_fns marker_slots = record {
    commands = default_fns;
    markers = replicate marker_slots none;
  }

  unfoldable pub add_marker_slot : ComponentFns F → ℕ → Outcome (ComponentFns F)
  unfolding insert_at
  add_marker_slot fns marker_id =
      insert_at marker_id none fns.markers >>= λ markers. ok (record fns { markers = markers })

  -- A slot that is not there is a panic; one that is set already is one where `checks` says that the
  -- build has debug assertions.
  unfoldable pub set_slot :
      Bool → ℕ → F → List (Option F) → Option (Option F) → Outcome (List (Option F))
  set_slot checks marker_id command_fns markers none = panic
  set_slot checks marker_id command_fns markers (some fns) =
      debug_assert checks (is_none fns) >>= λ _. ok (set markers marker_id (some command_fns))

  unfoldable pub set_marker_fns : Bool → ComponentFns F → ℕ → F → Outcome (ComponentFns F)
  unfolding set_slot
  set_marker_fns checks fns marker_id command_fns =
      set_slot checks marker_id command_fns fns.markers (get_elem? fns.markers marker_id)
      >>= λ markers. ok (record fns { markers = markers })

  unfoldable pub set_command_fns : ComponentFns F → F → ComponentFns F
  set_command_fns fns command_fns = record fns { commands = command_fns }

  -- `zip`, `filter` and `find_map`: the first functions whose marker is there.
  unfoldable pub find_fns : List (Option F) → List Bool → Option F
  find_fns [] present = none
  find_fns (fns ∷ rest) [] = none
  find_fns (fns ∷ rest) (contains ∷ present) =
      let later = find_fns rest present in if contains then or_else fns later else later

  -- The functions that `write` and `remove` call.
  unfoldable pub chosen : ComponentFns F → List Bool → F
  unfolding find_fns
  chosen fns entity_markers = unwrap_or (find_fns fns.markers entity_markers) fns.commands

  abbrev pub with_history : Bool → Option F → Option (F × Bool)
  with_history need_history none = none
  with_history need_history (some fns) = some (fns, need_history)

  abbrev pub or_else_history : Option (F × Bool) → Option (F × Bool) → Option (F × Bool)
  or_else_history (some found) other = some found
  or_else_history none other = other

  unfoldable pub find_history : List (Option F) → List Bool → List Bool → Option (F × Bool)
  find_history [] present require = none
  find_history (fns ∷ rest) [] require = none
  find_history (fns ∷ rest) (contains ∷ present) [] = none
  find_history (fns ∷ rest) (contains ∷ present) (need_history ∷ require) =
      let later = find_history rest present require in
      if contains then or_else_history (with_history need_history fns) later else later

  abbrev pub requiring : Option (F × Bool) → Option F
  requiring none = none
  requiring (some (fns, need_history)) = if need_history then some fns else none

  -- The functions that `consume_or_write` writes with; it consumes where there are none.
  unfoldable pub chosen_history : ComponentFns F → List Bool → List Bool → Option F
  unfolding find_history
  chosen_history fns entity_markers require =
      requiring (find_history fns.markers entity_markers require)
