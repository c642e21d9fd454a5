-- ===== src/Visibility/Invariant.antt =====
-- client_visibility.rs: what the lists of a filter say of one another.
use bevy_mod_replication.Common.{
  ℕ, ◌≡◌, refl, Bool, true, false, if◌then◌else◌, ◌==◌, none, some, List, [], ◌∷◌, arith,
}
use bevy_mod_replication.Common.Maps.{
  lookup, contains, lookup-insert, lookup-erase, contains-insert, contains-erase,
}
use bevy_mod_replication.Visibility.{
  VisibilityPolicy, BlacklistInfo, WhitelistInfo, Visibility, Filter, ClientVisibility, new, clear,
  update, remove_despawned, drain_lost, set_visibility, state, is_visible,
}
use bevy_mod_replication.Visibility.Sets.{lookup-erase_all, lookup-insert_all}

-- The entities queued for removal are those of `removed`, and what was added is hidden.
abbrev IsBlacklist : Filter BlacklistInfo → Type 0
IsBlacklist f =
    (e : ℕ)
    → (contains e f.removed
        ≡ (elim (lookup e f.list) [ some BlacklistInfo.queued_for_removal ↦ true | _ ↦ false ]))
      × (contains e f.added ≡ true → lookup e f.list ≡ some BlacklistInfo.hidden)

-- The entities just added are those of `added`, and what was removed is not in the list.
abbrev IsWhitelist : Filter WhitelistInfo → Type 0
IsWhitelist f =
    (e : ℕ)
    → (contains e f.added
        ≡ (elim (lookup e f.list) [ some WhitelistInfo.just_added ↦ true | _ ↦ false ]))
      × (contains e f.removed ≡ true → lookup e f.list ≡ none)

abbrev pub IsConsistent : ClientVisibility → Type 0
IsConsistent ClientVisibility.all = Unit
IsConsistent (ClientVisibility.blacklist f) = IsBlacklist f
IsConsistent (ClientVisibility.whitelist f) = IsWhitelist f

abbrev is_all : ClientVisibility → Bool
is_all ClientVisibility.all = true
is_all _ = false

-- What `set_visibility` promises: the visibility of that entity is the one asked for, unless the
-- policy is to show all, and that of the others is as it was.
pub is_visible-set_visibility :
    (v : ClientVisibility) (entity other : ℕ) (shown : Bool)
    → is_visible (set_visibility v entity shown) other
      ≡ (if is_all v then true else if entity == other then shown else is_visible v other)
unfolding is_visible set_visibility
is_visible-set_visibility ClientVisibility.all entity other shown = refl
is_visible-set_visibility (ClientVisibility.blacklist f) entity other true = ground (
  arith,
  lookup-erase entity other f.list,
  lookup-insert entity other BlacklistInfo.queued_for_removal f.list,
)
is_visible-set_visibility (ClientVisibility.blacklist f) entity other false =
    ground (arith, lookup-insert entity other BlacklistInfo.hidden f.list)
is_visible-set_visibility (ClientVisibility.whitelist f) entity other true =
    ground (arith, lookup-insert entity other WhitelistInfo.just_added f.list)
is_visible-set_visibility (ClientVisibility.whitelist f) entity other false =
    ground (arith, lookup-erase entity other f.list)

new-IsConsistent : (p : VisibilityPolicy) → IsConsistent (new p)
unfolding new lookup contains
new-IsConsistent VisibilityPolicy.all = tt
new-IsConsistent VisibilityPolicy.blacklist = λ e. ground arith
new-IsConsistent VisibilityPolicy.whitelist = λ e. ground arith

-- Each call of `set_visibility` keeps the lists consistent.
pub set_visibility-IsConsistent :
    (v : ClientVisibility) (entity : ℕ) (shown : Bool)
    → IsConsistent v
    → IsConsistent (set_visibility v entity shown)
unfolding set_visibility
set_visibility-IsConsistent ClientVisibility.all entity shown h = tt
set_visibility-IsConsistent (ClientVisibility.blacklist f) entity true h = λ e. ground (
  arith,
  h e,
  h entity,
  lookup-erase entity e f.list,
  lookup-insert entity e BlacklistInfo.queued_for_removal f.list,
  contains-insert entity e f.removed,
  contains-erase entity e f.added,
)
set_visibility-IsConsistent (ClientVisibility.blacklist f) entity false h = λ e. ground (
  arith,
  h e,
  h entity,
  lookup-insert entity e BlacklistInfo.hidden f.list,
  contains-erase entity e f.removed,
  contains-insert entity e f.added,
)
set_visibility-IsConsistent (ClientVisibility.whitelist f) entity true h = λ e. ground (
  arith,
  h e,
  h entity,
  lookup-insert entity e WhitelistInfo.just_added f.list,
  contains-erase entity e f.removed,
  contains-insert entity e f.added,
)
set_visibility-IsConsistent (ClientVisibility.whitelist f) entity false h = λ e. ground (
  arith,
  h e,
  h entity,
  lookup-erase entity e f.list,
  contains-insert entity e f.removed,
  contains-erase entity e f.added,
)

update-IsConsistent : (v : ClientVisibility) → IsConsistent v → IsConsistent (update v)
unfolding update contains
update-IsConsistent ClientVisibility.all h = tt
update-IsConsistent (ClientVisibility.blacklist f) h =
    λ e. ground (arith, h e, lookup-erase_all f.removed e f.list)
update-IsConsistent (ClientVisibility.whitelist f) h =
    λ e. ground (arith, h e, lookup-insert_all f.added WhitelistInfo.visible e f.list)

remove_despawned-IsConsistent :
    (v : ClientVisibility) (entity : ℕ) → IsConsistent v → IsConsistent (remove_despawned v entity)
unfolding remove_despawned
remove_despawned-IsConsistent ClientVisibility.all entity h = tt
remove_despawned-IsConsistent (ClientVisibility.blacklist f) entity h = λ e. ground (
  arith,
  h e,
  lookup-erase entity e f.list,
  contains-erase entity e f.added,
  contains-erase entity e f.removed,
)
remove_despawned-IsConsistent (ClientVisibility.whitelist f) entity h = λ e. ground (
  arith,
  h e,
  lookup-erase entity e f.list,
  contains-erase entity e f.added,
  contains-erase entity e f.removed,
)

drain_lost-IsConsistent : (v : ClientVisibility) → IsConsistent v → IsConsistent (drain_lost v).1
unfolding drain_lost contains
drain_lost-IsConsistent ClientVisibility.all h = tt
drain_lost-IsConsistent (ClientVisibility.blacklist f) h = λ e. ground (arith, h e)
drain_lost-IsConsistent (ClientVisibility.whitelist f) h = λ e. ground (arith, h e)

-- The calls that change a client's visibility.
pub data Call : Type 0 where
  sets : ℕ → Bool → Call
  despawns : ℕ → Call
  updates drains clears : Call

unfoldable pub step : ClientVisibility → Call → ClientVisibility
step v (sets entity shown) = set_visibility v entity shown
step v (despawns entity) = remove_despawned v entity
step v updates = update v
step v drains = (drain_lost v).1
step v clears = clear v

unfoldable pub run : ClientVisibility → List Call → ClientVisibility
run v [] = v
run v (c ∷ cs) = run (step v c) cs

clear-IsConsistent : (v : ClientVisibility) → IsConsistent (clear v)
unfolding clear lookup contains
clear-IsConsistent ClientVisibility.all = tt
clear-IsConsistent (ClientVisibility.blacklist f) = λ e. ground arith
clear-IsConsistent (ClientVisibility.whitelist f) = λ e. ground arith

step-IsConsistent : (v : ClientVisibility) (c : Call) → IsConsistent v → IsConsistent (step v c)
unfolding step
step-IsConsistent v (sets entity shown) h = set_visibility-IsConsistent v entity shown h
step-IsConsistent v (despawns entity) h = remove_despawned-IsConsistent v entity h
step-IsConsistent v updates h = update-IsConsistent v h
step-IsConsistent v drains h = drain_lost-IsConsistent v h
step-IsConsistent v clears h = clear-IsConsistent v

run-IsConsistent :
    (v : ClientVisibility) (cs : List Call) → IsConsistent v → IsConsistent (run v cs)
unfolding run
run-IsConsistent v [] h = h
run-IsConsistent v (c ∷ cs) h = run-IsConsistent (step v c) cs (step-IsConsistent v c h)

-- Under every policy and after every sequence of calls the lists of the filter agree: `removed`
-- (`added` for a whitelist) holds exactly the entities whose visibility was just gained, and the
-- other set only entities that are hidden.
pub run-new-IsConsistent : (p : VisibilityPolicy) (cs : List Call) → IsConsistent (run (new p) cs)
run-new-IsConsistent p cs = run-IsConsistent (new p) cs (new-IsConsistent p)

-- `update` ends the tick: it changes no visibility, and what was gained is visible from then on.
pub state-update :
    (v : ClientVisibility) (e : ℕ)
    → IsConsistent v
    → state (update v) e ≡ (if is_visible v e then Visibility.visible else Visibility.hidden)
unfolding state update is_visible
state-update ClientVisibility.all e h = refl
state-update (ClientVisibility.blacklist f) e h =
    ground (arith, h e, lookup-erase_all f.removed e f.list)
state-update (ClientVisibility.whitelist f) e h =
    ground (arith, h e, lookup-insert_all f.added WhitelistInfo.visible e f.list)
