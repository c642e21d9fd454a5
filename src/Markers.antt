-- ===== src/Markers.antt =====
-- core/replication/command_markers.rs: the markers that override the functions of components on an
-- entity, in descending order of priority, and which of them an entity has. The standard library's
-- binary search is an argument.
pub mod Fns
pub mod Registry
pub mod Selection
pub mod Aligned
pub mod Kept
pub mod Reached
mod Examples
use bevy_mod_replication.Common.{
  ℕ, zero, suc, ◌≤◌, Bool, true, false, ◌&&◌, List, [], ◌∷◌, ◌++◌, length, take, drop, All, ◌==◌,
  if◌then◌else◌, Outcome, ok, panic, ◌>>=◌,
}

pub record CommandMarker : Type 0 where
  pub component_id : ℕ
  pub priority : ℕ
  pub need_history : Bool

-- `Vec::insert`, which panics past the end.
unfoldable pub insert_at : {A : Type 0} → ℕ → A → List A → Outcome (List A)
insert_at zero a xs = ok (a ∷ xs)
insert_at (suc i) a [] = panic
insert_at (suc i) a (x ∷ xs) = insert_at i a xs >>= λ rest. ok (x ∷ rest)

-- `CommandMarkers::insert`, with the index; `binary_search` gives the index for a priority.
unfoldable pub insert :
    (List CommandMarker → ℕ → ℕ)
    → List CommandMarker
    → CommandMarker
    → Outcome (List CommandMarker × ℕ)
unfolding insert_at
insert binary_search markers marker =
    let index = binary_search markers marker.priority in
    insert_at index marker markers >>= λ inserted. ok (inserted, index)

-- `CommandMarkers::marker_id`.
unfoldable pub marker_id : List CommandMarker → ℕ → Outcome ℕ
marker_id [] component_id = panic
marker_id (marker ∷ rest) component_id =
    let later = marker_id rest component_id >>= λ index. ok (suc index) in
    if marker.component_id == component_id then ok 0 else later

unfoldable pub iter_require_history : List CommandMarker → List Bool
iter_require_history [] = []
iter_require_history (marker ∷ rest) = marker.need_history ∷ iter_require_history rest

pub record EntityMarkers : Type 0 where
  pub markers : List Bool
  pub need_history : Bool

-- The loop of `EntityMarkers::read`; `contains_id` is that of the entity.
unfoldable pub read_each : (ℕ → Bool) → List CommandMarker → EntityMarkers → EntityMarkers
read_each contains_id [] read = read
read_each contains_id (marker ∷ rest) read =
    let contains = contains_id marker.component_id in
    read_each contains_id rest (record {
      markers = read.markers ++ (contains ∷ []);
      need_history = if contains && marker.need_history then true else read.need_history;
    })

unfoldable pub read : List CommandMarker → (ℕ → Bool) → EntityMarkers
unfolding read_each
read markers contains_id =
    read_each contains_id markers (record { markers = []; need_history = false })
