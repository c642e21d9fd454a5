-- ===== src/Visibility.antt =====
-- core/replication/replicated_clients/client_visibility.rs: `ClientVisibility`, which entities one
-- client sees, with what it gained and lost since the last tick. An entity is its number. The
-- hash sets and maps are lists; the order of a set is the order in which it is drained.
pub mod Sets
pub mod Invariant
pub mod Lost
mod Examples
use bevy_mod_replication.Common.{
  ℕ, Bool, true, false, if◌then◌else◌, Option, none, some, List, [], ◌∷◌,
}
use bevy_mod_replication.Common.Maps.{lookup, insert, erase, contains, set_insert, set_erase}

pub data VisibilityPolicy : Type 0 where
  all blacklist whitelist : VisibilityPolicy

pub data BlacklistInfo : Type 0 where
  hidden queued_for_removal : BlacklistInfo

pub data WhitelistInfo : Type 0 where
  visible just_added : WhitelistInfo

pub data Visibility : Type 0 where
  hidden gained visible : Visibility

-- A filter's list, and the entities added to it and removed from it since the last update.
pub record Filter (Info : Type 0) : Type 0 where
  pub list : List (ℕ × Info)
  pub added : List ℕ
  pub removed : List ℕ

pub data ClientVisibility : Type 0 where
  all : ClientVisibility
  blacklist : Filter BlacklistInfo → ClientVisibility
  whitelist : Filter WhitelistInfo → ClientVisibility

abbrev pub empty : {Info : Type 0} → Filter Info
empty = record { list = []; added = []; removed = [] }

unfoldable pub new : VisibilityPolicy → ClientVisibility
new VisibilityPolicy.all = ClientVisibility.all
new VisibilityPolicy.blacklist = ClientVisibility.blacklist empty
new VisibilityPolicy.whitelist = ClientVisibility.whitelist empty

unfoldable pub clear : ClientVisibility → ClientVisibility
clear ClientVisibility.all = ClientVisibility.all
clear (ClientVisibility.blacklist f) = ClientVisibility.blacklist empty
clear (ClientVisibility.whitelist f) = ClientVisibility.whitelist empty

-- `for entity in removed.drain() { list.remove(&entity) }`.
unfoldable pub erase_all : {Info : Type 0} → List ℕ → List (ℕ × Info) → List (ℕ × Info)
erase_all [] list = list
erase_all (entity ∷ rest) list = erase_all rest (erase entity list)

-- `for entity in added.drain() { list.insert(entity, info) }`.
unfoldable pub insert_all : {Info : Type 0} → List ℕ → Info → List (ℕ × Info) → List (ℕ × Info)
insert_all [] info list = list
insert_all (entity ∷ rest) info list = insert_all rest info (insert entity info list)

unfoldable pub update : ClientVisibility → ClientVisibility
update ClientVisibility.all = ClientVisibility.all
update (ClientVisibility.blacklist f) =
    ClientVisibility.blacklist
      (record { list = erase_all f.removed f.list; added = []; removed = [] })
update (ClientVisibility.whitelist f) =
    ClientVisibility.whitelist
      (record { list = insert_all f.added WhitelistInfo.visible f.list; added = []; removed = [] })

-- Both lists forget a despawned entity that they hold.
unfoldable pub forget : {Info : Type 0} → Filter Info → ℕ → Filter Info
forget f entity = elim (lookup entity f.list) [
  | none ↦ f
  | some _ ↦ record {
    list = erase entity f.list;
    added = set_erase entity f.added;
    removed = set_erase entity f.removed;
  }
]

unfoldable pub remove_despawned : ClientVisibility → ℕ → ClientVisibility
unfolding forget
remove_despawned ClientVisibility.all entity = ClientVisibility.all
remove_despawned (ClientVisibility.blacklist f) entity =
    ClientVisibility.blacklist (forget f entity)
remove_despawned (ClientVisibility.whitelist f) entity =
    ClientVisibility.whitelist (forget f entity)

-- The drained entities come with the new state.
unfoldable pub drain_lost : ClientVisibility → List ℕ × ClientVisibility
drain_lost ClientVisibility.all = ([], ClientVisibility.all)
drain_lost (ClientVisibility.blacklist f) =
    (f.added, ClientVisibility.blacklist (record f { added = [] }))
drain_lost (ClientVisibility.whitelist f) =
    (f.removed, ClientVisibility.whitelist (record f { removed = [] }))

unfoldable pub blacklist_show : Filter BlacklistInfo → ℕ → Filter BlacklistInfo
blacklist_show f entity = elim (lookup entity f.list) [
  | none ↦ f
  | some _ ↦
      if contains entity f.added
      then record f { list = erase entity f.list; added = set_erase entity f.added }
      else record f {
        list = insert entity BlacklistInfo.queued_for_removal f.list;
        removed = set_insert entity f.removed;
      }
]

unfoldable pub blacklist_hide : Filter BlacklistInfo → ℕ → Filter BlacklistInfo
blacklist_hide f entity =
    let list = insert entity BlacklistInfo.hidden f.list in
    elim (lookup entity f.list) [
      | some _ ↦ record f { list = list; removed = set_erase entity f.removed }
      | none ↦ record f { list = list; added = set_insert entity f.added }
    ]

-- `*list.entry(entity).or_insert(JustAdded) == JustAdded`.
unfoldable pub whitelist_show : Filter WhitelistInfo → ℕ → Filter WhitelistInfo
whitelist_show f entity =
    let removed = set_erase entity f.removed in
    elim (lookup entity f.list) [
      | some WhitelistInfo.visible ↦ record f { removed = removed }
      | some WhitelistInfo.just_added ↦ record f {
        added = set_insert entity f.added;
        removed = removed;
      }
      | none ↦ record {
        list = insert entity WhitelistInfo.just_added f.list;
        added = set_insert entity f.added;
        removed = removed;
      }
    ]

unfoldable pub whitelist_hide : Filter WhitelistInfo → ℕ → Filter WhitelistInfo
whitelist_hide f entity = elim (lookup entity f.list) [
  | none ↦ f
  | some _ ↦
      let list = erase entity f.list in
      if contains entity f.added
      then record f { list = list; added = set_erase entity f.added }
      else record f { list = list; removed = set_insert entity f.removed }
]

unfoldable pub set_visibility : ClientVisibility → ℕ → Bool → ClientVisibility
unfolding blacklist_show blacklist_hide whitelist_show whitelist_hide
set_visibility ClientVisibility.all entity shown = ClientVisibility.all
set_visibility (ClientVisibility.blacklist f) entity true =
    ClientVisibility.blacklist (blacklist_show f entity)
set_visibility (ClientVisibility.blacklist f) entity false =
    ClientVisibility.blacklist (blacklist_hide f entity)
set_visibility (ClientVisibility.whitelist f) entity true =
    ClientVisibility.whitelist (whitelist_show f entity)
set_visibility (ClientVisibility.whitelist f) entity false =
    ClientVisibility.whitelist (whitelist_hide f entity)

unfoldable pub state : ClientVisibility → ℕ → Visibility
state ClientVisibility.all entity = Visibility.visible
state (ClientVisibility.blacklist f) entity = elim (lookup entity f.list) [
  | some BlacklistInfo.queued_for_removal ↦ Visibility.gained
  | some BlacklistInfo.hidden ↦ Visibility.hidden
  | none ↦ Visibility.visible
]
state (ClientVisibility.whitelist f) entity = elim (lookup entity f.list) [
  | some WhitelistInfo.just_added ↦ Visibility.gained
  | some WhitelistInfo.visible ↦ Visibility.visible
  | none ↦ Visibility.hidden
]

unfoldable pub is_visible : ClientVisibility → ℕ → Bool
unfolding state
is_visible v entity = elim (state v entity) [
  | Visibility.hidden ↦ false
  | Visibility.gained ↦ true
  | Visibility.visible ↦ true
]
