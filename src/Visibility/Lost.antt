-- ===== src/Visibility/Lost.antt =====
-- client_visibility.rs: which entities `drain_lost` reports at the end of a tick.
use bevy_mod_replication.Common.{
  ℕ, ◌≡◌, ◌≢◌, Bool, true, false, not, ◌&&◌, if◌then◌else◌, none, some, List, [], ◌∷◌, arith,
}
use bevy_mod_replication.Common.Maps.{
  lookup, contains, lookup-insert, lookup-erase, contains-insert, contains-erase,
}
use bevy_mod_replication.Visibility.{
  BlacklistInfo, WhitelistInfo, Filter, ClientVisibility, insert_all, update, drain_lost,
  blacklist_show, blacklist_hide, whitelist_show, whitelist_hide, set_visibility, is_visible,
}
use bevy_mod_replication.Visibility.Sets.{lookup-erase_all, lookup-insert_all}
use bevy_mod_replication.Visibility.Invariant.{IsConsistent}

-- The calls of `set_visibility` in one tick.
unfoldable pub set_all : ClientVisibility → List (ℕ × Bool) → ClientVisibility
set_all v [] = v
set_all v ((entity, shown) ∷ rest) = set_all (set_visibility v entity shown) rest

-- A blacklist against the visibility at the start of the tick: `added` has what was visible and is
-- hidden, `removed` what was hidden and is visible.
TracksBlacklist : (ℕ → Bool) → Filter BlacklistInfo → Type 0
TracksBlacklist before f =
    (e : ℕ)
    → (contains e f.added
        ≡ (before e && (elim (lookup e f.list) [ some BlacklistInfo.hidden ↦ true | _ ↦ false ])))
      × (contains e f.removed
          ≡ (elim (lookup e f.list) [ some BlacklistInfo.queued_for_removal ↦ true | _ ↦ false ]))
      × (before e ≡ (elim (lookup e f.list) [
        | some BlacklistInfo.hidden ↦ before e
        | some BlacklistInfo.queued_for_removal ↦ false
        | none ↦ true
      ]))

set-TracksBlacklist :
    (before : ℕ → Bool) (f : Filter BlacklistInfo) (entity : ℕ) (shown : Bool)
    → TracksBlacklist before f
    → TracksBlacklist before (if shown then blacklist_show f entity else blacklist_hide f entity)
unfolding TracksBlacklist blacklist_show blacklist_hide
set-TracksBlacklist before f entity true h = λ e. ground (
  arith,
  h e,
  h entity,
  lookup-erase entity e f.list,
  lookup-insert entity e BlacklistInfo.queued_for_removal f.list,
  contains-insert entity e f.removed,
  contains-erase entity e f.added,
)
set-TracksBlacklist before f entity false h = λ e. ground (
  arith,
  h e,
  h entity,
  lookup-insert entity e BlacklistInfo.hidden f.list,
  contains-erase entity e f.removed,
  contains-insert entity e f.added,
)

lost-TracksBlacklist :
    (before : ℕ → Bool) (f : Filter BlacklistInfo) (sets : List (ℕ × Bool)) (e : ℕ)
    → TracksBlacklist before f
    → contains e (drain_lost (set_all (ClientVisibility.blacklist f) sets)).0
      ≡ (before e && not (is_visible (set_all (ClientVisibility.blacklist f) sets) e))
unfolding set_all set_visibility
lost-TracksBlacklist before f [] e h =
    unfold TracksBlacklist drain_lost is_visible in ground (arith, h e)
lost-TracksBlacklist before f ((entity, true) ∷ sets) e h =
    lost-TracksBlacklist before (blacklist_show f entity) sets e
      (set-TracksBlacklist before f entity true h)
lost-TracksBlacklist before f ((entity, false) ∷ sets) e h =
    lost-TracksBlacklist before (blacklist_hide f entity) sets e
      (set-TracksBlacklist before f entity false h)

-- With a blacklist, after any calls of `set_visibility` since the last update, the entities that
-- `drain_lost` reports are exactly those that were visible then and are hidden now.
pub drain_lost-blacklist :
    (f : Filter BlacklistInfo) (sets : List (ℕ × Bool)) (e : ℕ)
    → IsConsistent (ClientVisibility.blacklist f)
    → contains e (drain_lost (set_all (update (ClientVisibility.blacklist f)) sets)).0 ≡ (
        is_visible (ClientVisibility.blacklist f) e
        && not (is_visible (set_all (update (ClientVisibility.blacklist f)) sets) e))
unfolding update
drain_lost-blacklist f sets e h =
    lost-TracksBlacklist (is_visible (ClientVisibility.blacklist f)) _ sets e (
      unfold TracksBlacklist is_visible contains in
      λ d. ground (arith, h d, lookup-erase_all f.removed d f.list))

-- A whitelist against the visibility at the start of the tick.
TracksWhitelist : (ℕ → Bool) → Filter WhitelistInfo → Type 0
TracksWhitelist before f =
    (e : ℕ)
    → (contains e f.added
        ≡ (elim (lookup e f.list) [ some WhitelistInfo.just_added ↦ true | _ ↦ false ]))
      × (contains e f.removed ≡ true → (before e ≡ true) × (lookup e f.list ≡ none))
      × (lookup e f.list ≡ some WhitelistInfo.visible → before e ≡ true)

set-TracksWhitelist :
    (before : ℕ → Bool) (f : Filter WhitelistInfo) (entity : ℕ) (shown : Bool)
    → TracksWhitelist before f
    → TracksWhitelist before (if shown then whitelist_show f entity else whitelist_hide f entity)
unfolding TracksWhitelist whitelist_show whitelist_hide
set-TracksWhitelist before f entity true h = λ e. ground (
  arith,
  h e,
  h entity,
  lookup-insert entity e WhitelistInfo.just_added f.list,
  contains-erase entity e f.removed,
  contains-insert entity e f.added,
)
set-TracksWhitelist before f entity false h = λ e. ground (
  arith,
  h e,
  h entity,
  lookup-erase entity e f.list,
  contains-insert entity e f.removed,
  contains-erase entity e f.added,
)

lost-TracksWhitelist :
    (before : ℕ → Bool) (f : Filter WhitelistInfo) (sets : List (ℕ × Bool)) (e : ℕ)
    → TracksWhitelist before f
    → contains e (drain_lost (set_all (ClientVisibility.whitelist f) sets)).0 ≡ true
    → (before e ≡ true) × (is_visible (set_all (ClientVisibility.whitelist f) sets) e ≡ false)
unfolding set_all set_visibility
lost-TracksWhitelist before f [] e h l =
    unfold TracksWhitelist drain_lost is_visible in ground (arith, h e)
lost-TracksWhitelist before f ((entity, true) ∷ sets) e h l =
    lost-TracksWhitelist before (whitelist_show f entity) sets e
      (set-TracksWhitelist before f entity true h) l
lost-TracksWhitelist before f ((entity, false) ∷ sets) e h l =
    lost-TracksWhitelist before (whitelist_hide f entity) sets e
      (set-TracksWhitelist before f entity false h) l

-- With a whitelist every entity that `drain_lost` reports was visible at the last update and is
-- hidden now.
pub drain_lost-whitelist :
    (f : Filter WhitelistInfo) (sets : List (ℕ × Bool)) (e : ℕ)
    → IsConsistent (ClientVisibility.whitelist f)
    → contains e (drain_lost (set_all (update (ClientVisibility.whitelist f)) sets)).0 ≡ true
    → (is_visible (ClientVisibility.whitelist f) e ≡ true)
      × (is_visible (set_all (update (ClientVisibility.whitelist f)) sets) e ≡ false)
unfolding update
drain_lost-whitelist f sets e h l =
    lost-TracksWhitelist (is_visible (ClientVisibility.whitelist f)) _ sets e
      (unfold TracksWhitelist is_visible contains in
        λ d. ground (arith, h d, lookup-insert_all f.added WhitelistInfo.visible d f.list))
      l

hide_gone : (f : Filter WhitelistInfo) (e : ℕ) → lookup e (whitelist_hide f e).list ≡ none
unfolding whitelist_hide
hide_gone f e = ground (arith, lookup-erase e e f.list)

show_marks :
    (f : Filter WhitelistInfo) (e : ℕ)
    → lookup e f.list ≡ none
    → (lookup e (whitelist_show f e).list ≡ some WhitelistInfo.just_added)
      × (contains e (whitelist_show f e).added ≡ true)
      × (contains e (whitelist_show f e).removed ≡ false)
unfolding whitelist_show
show_marks f e h = ground (
  arith,
  h,
  lookup-insert e e WhitelistInfo.just_added f.list,
  contains-insert e e f.added,
  contains-erase e e f.removed,
)

hide_undoes :
    (f : Filter WhitelistInfo) (e : ℕ)
    → lookup e f.list ≡ some WhitelistInfo.just_added
    → contains e f.added ≡ true
    → contains e f.removed ≡ false
    → contains e (whitelist_hide f e).removed ≡ false
unfolding whitelist_hide
hide_undoes f e h k l = rw (h, whitelist_hide) (rw k l)

hidden_of_none :
    (f : Filter WhitelistInfo) (e : ℕ)
    → lookup e f.list ≡ none
    → is_visible (ClientVisibility.whitelist f) e ≡ false
unfolding is_visible
hidden_of_none f e h = ground arith

-- But a whitelist forgets a loss: an entity that was visible at the last update and is hidden,
-- shown and hidden again within one tick is hidden in the end and not reported, so that
-- `drain_lost` does not report exactly the entities that were visible then and are hidden now.
pub drain_lost-whitelist_misses :
    (f : Filter WhitelistInfo) (e : ℕ)
    → is_visible (ClientVisibility.whitelist f) e ≡ true
    → let v =
        set_all
          (update (ClientVisibility.whitelist f))
          ((e, false) ∷ (e, true) ∷ (e, false) ∷ []) in
      (is_visible v e ≡ false)
      × (contains e (drain_lost v).0
          ≢ (is_visible (ClientVisibility.whitelist f) e && not (is_visible v e)))
unfolding set_all update set_visibility drain_lost
drain_lost-whitelist_misses f e shown =
    let g : Filter WhitelistInfo = record {
      list = insert_all f.added WhitelistInfo.visible f.list;
      added = [];
      removed = [];
    } in
    let m = show_marks (whitelist_hide g e) e (hide_gone g e) in
    let gone = hidden_of_none _ e (hide_gone (whitelist_show (whitelist_hide g e) e) e) in
    let unreported = hide_undoes (whitelist_show (whitelist_hide g e) e) e m.0 m.1 m.2 in
    (gone, λ exact. ground (arith, exact, gone, unreported, shown))
