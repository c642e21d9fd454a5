-- ===== src/Receive/Mutations/Judge.antt =====
-- client.rs: the ticks that `apply_mutations` confirms by itself, and `ConfirmHistory::confirm`.
use bevy_mod_replication.Common.{
  ℕ, ◌≡◌, refl, sym, ap, ◌∙◌, Bool, true, false, ◌&&◌, ◌||◌, Option, none, some, ◌++◌, ◌∷◌, [],
  Outcome, ok, panic, ◌>>=◌, ltb, leb, if◌then◌else◌, arith, Bool-cases, Option-cases, inl, inr,
}
use bevy_mod_replication.Tick.{RepliconTick, tick_gt, sub}
use bevy_mod_replication.Client.ConfirmHistory.{ConfirmHistory, confirm}
use bevy_mod_replication.Wire.{Wire}
use bevy_mod_replication.Receive.Items.{World, Client}
use bevy_mod_replication.Receive.Mutations.{Verdict, judge}

module _ {W Component : Type 0} (w : Wire Component) (e : World W Component) (checks : Bool) where
  -- Whether the mutations of a tick count: it is newer than the last confirmed one, or history is needed
  -- and it is less than 64 ticks older.
  unfoldable pub counts : RepliconTick → ℕ → Client W → ConfirmHistory → Bool
  counts tick entity t h =
      tick_gt tick h.last_tick || (e.need_history t.world entity && ltb (sub h.last_tick tick) 64)

  -- What the history of an entity comes to: a panic where it has none; the history with the tick
  -- confirmed, or nothing at all.
  unfoldable pub by_history :
      RepliconTick → ℕ → Client W → Option ConfirmHistory → Outcome (Client W × Verdict)
  unfolding counts
  by_history tick entity t none = panic
  by_history tick entity t (some h) =
      let confirmed = confirm checks h tick >>= λ h'. ok (
        record t {
          world = e.set_history entity h' t.world;
          replicated_events = t.replicated_events ++ ((entity, tick) ∷ []);
        },
        Verdict.apply (tick_gt tick h.last_tick),
      ) in
      if counts tick entity t h then confirmed else ok (t, Verdict.ignore)

  judge-history :
      (tick : RepliconTick) (entity : ℕ) (t : Client W) (h : ConfirmHistory)
      → e.exists t.world entity ≡ true
      → e.history t.world entity ≡ some h
      → judge w e checks tick entity t ≡ by_history tick entity t (some h)
  unfolding judge confirm by_history
  judge-history tick entity t h exists history = elim (Bool-cases (tick_gt tick h.last_tick)) [
    | inl newer ↦ rw (exists, history, newer) refl
    | inr older ↦ elim (Bool-cases (e.need_history t.world entity)) [
      | inl need ↦ elim (Bool-cases (ltb (sub h.last_tick tick) 64)) [
        | inl near ↦
            let kept : leb 64 (sub h.last_tick tick) ≡ false = ground (arith, near) in
            rw (exists, history, older, need, near, kept) refl
        | inr far ↦
            let left : leb 64 (sub h.last_tick tick) ≡ true = ground (arith, far) in
            rw (exists, history, older, need, far, left) refl
      ]
      | inr unneeded ↦ rw (exists, history, older, unneeded) refl
    ]
  ]

  -- The decision on an entity's mutations, for every entity and tick. It panics where the entity does not
  -- exist or has no history. Otherwise, where the tick is newer than the last confirmed one, or history
  -- is needed and the tick is less than 64 older, it accepts the mutations, as new or as old ones, with
  -- the history that `confirm` gives and an event, and panics where `confirm` does; and where
  -- not, it ignores them and changes nothing.
  pub judge-confirm :
      (tick : RepliconTick) (entity : ℕ) (t : Client W)
      → judge w e checks tick entity t ≡ (
          if e.exists t.world entity
          then by_history tick entity t (e.history t.world entity)
          else panic)
  judge-confirm tick entity t = elim (Bool-cases (e.exists t.world entity)) [
    | inl exists ↦ elim (Option-cases (e.history t.world entity)) [
      | inl missing ↦ unfold judge by_history in rw (exists, missing) refl
      | inr (h, history) ↦ rw exists (
          judge-history tick entity t h exists history
          ∙ ap (λ o. by_history tick entity t o) (sym history))
    ]
    | inr gone ↦ unfold judge in rw gone refl
  ]
