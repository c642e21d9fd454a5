-- ===== src/Visibility/Examples.antt =====
-- client_visibility.rs: tests of the source, and the theorems at inputs.
use bevy_mod_replication.Common.{◌≡◌, ◌≢◌, refl, true, false, not, ◌&&◌, [], ◌∷◌, arith}
use bevy_mod_replication.Common.Maps.{lookup, insert, erase, contains, set_insert, set_erase}
use bevy_mod_replication.Visibility.{
  VisibilityPolicy, BlacklistInfo, WhitelistInfo, Filter, ClientVisibility, new, update, drain_lost,
  set_visibility, is_visible,
}
use bevy_mod_replication.Visibility.Invariant.{
  IsConsistent, sets, updates, drains, run, run-new-IsConsistent,
}
use bevy_mod_replication.Visibility.Lost.{
  set_all, drain_lost-blacklist, drain_lost-whitelist_misses,
}

-- `blacklist_insertion`.
blacklist_insertion :
    set_visibility (new VisibilityPolicy.blacklist) 7 false
    ≡ ClientVisibility.blacklist
        (record { list = (7, BlacklistInfo.hidden) ∷ []; added = 7 ∷ []; removed = [] })
unfolding new set_visibility lookup insert set_insert contains
blacklist_insertion = refl

-- `whitelist_insertion_removal`.
whitelist_insertion_removal :
    set_visibility (set_visibility (new VisibilityPolicy.whitelist) 7 true) 7 false
    ≡ ClientVisibility.whitelist (record { list = []; added = []; removed = [] })
unfolding new set_visibility lookup insert erase set_insert set_erase contains
whitelist_insertion_removal = refl

abbrev hiding : Filter BlacklistInfo
hiding = record {
  list = (7, BlacklistInfo.hidden) ∷ (8, BlacklistInfo.queued_for_removal) ∷ [];
  added = 7 ∷ [];
  removed = 8 ∷ [];
}

hiding-IsConsistent : IsConsistent (ClientVisibility.blacklist hiding)
unfolding lookup contains
hiding-IsConsistent = λ e. ground arith

abbrev showing : Filter WhitelistInfo
showing = record {
  list = (7, WhitelistInfo.visible) ∷ (8, WhitelistInfo.just_added) ∷ [];
  added = 8 ∷ [];
  removed = [];
}

showing-IsConsistent : IsConsistent (ClientVisibility.whitelist showing)
unfolding lookup contains
showing-IsConsistent = λ e. ground arith

run-new-IsConsistent_example :
    IsConsistent
      (run (new VisibilityPolicy.whitelist) (sets 7 true ∷ updates ∷ sets 7 false ∷ drains ∷ []))
run-new-IsConsistent_example =
    run-new-IsConsistent VisibilityPolicy.whitelist
      (sets 7 true ∷ updates ∷ sets 7 false ∷ drains ∷ [])

drain_lost-blacklist_example :
    contains 8
      (drain_lost (set_all (update (ClientVisibility.blacklist hiding)) ((8, false) ∷ []))).0
    ≡ (is_visible (ClientVisibility.blacklist hiding) 8
        && not
            (is_visible (set_all (update (ClientVisibility.blacklist hiding)) ((8, false) ∷ [])) 8))
drain_lost-blacklist_example = drain_lost-blacklist hiding ((8, false) ∷ []) 8 hiding-IsConsistent

drain_lost-whitelist_misses_example :
    let v =
      set_all
        (update (ClientVisibility.whitelist showing))
        ((7, false) ∷ (7, true) ∷ (7, false) ∷ []) in
    (is_visible v 7 ≡ false)
    × (contains 7 (drain_lost v).0
        ≢ (is_visible (ClientVisibility.whitelist showing) 7 && not (is_visible v 7)))
unfolding is_visible lookup
drain_lost-whitelist_misses_example = drain_lost-whitelist_misses showing 7 refl
