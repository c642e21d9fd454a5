-- ===== src/Receive/Mutations/Kept.antt =====
-- client.rs: `apply_mutate_messages` ends, and keeps exactly the messages that wait for a later update
-- message.
use bevy_mod_replication.Common.{
  ℕ, zero, suc, ◌+◌, ◌-◌, ◌<◌, ◌≤◌, ◌≡◌, refl, ap, Bool, true, false, not, ◌||◌, Option, none, some,
  List, [], ◌∷◌, length, ltb, Outcome, ok, panic, arith, length-drop, retain, Bool-cases, inl, inr,
}
use bevy_mod_replication.Tick.{RepliconTick, tick_gt}
use bevy_mod_replication.Backend.Server.{Bytes}
use bevy_mod_replication.EntityMap.{get_by_server}
use bevy_mod_replication.Wire.{Wire, IsReader, u64_mod}
use bevy_mod_replication.Receive.{finish_entity}
use bevy_mod_replication.Receive.Items.{World, Client, count_entities}
use bevy_mod_replication.Receive.Steps.{
  Action, ArrayKind, Step, done, failed, panicked_at, unfinished, resume, after, pure, change,
  ◌>>=◌ as bind,
}
use bevy_mod_replication.Receive.Ending.{
  Within, IsEnding, IsTaking, weaken-Within, resume-Within, if-Within, read-IsTaking, read-IsEnding,
  bind-IsTaking, bind-IsEnding, taking-IsEnding, change-IsEnding, run-IsEnding, pure-IsEnding,
  varint-Leaves, fns_id-Leaves, component-Leaves, apply_array-IsEnding,
}
use bevy_mod_replication.Receive.Finish.{read_entity-IsTaking}
use bevy_mod_replication.Receive.Mutations.{
  BufferedMutate, Verdict, add_u64, set_position, skip, apply_to, apply_mutation, until_position,
  apply_verdict, apply_found, apply_mutations, confirm_mutate, apply_mutate, apply_mutate_messages,
}

-- The messages are applied one after another, from the first state to the last; the result is whether one of
-- them has an error.
unfoldable pub AreApplied :
    {S : Type 0} → (BufferedMutate → S → Step S Bool) → List BufferedMutate → S → S → Bool → Type 0
AreApplied f [] t t' err = (t' ≡ t) × (err ≡ false)
AreApplied {S} f (m ∷ ms) t t' err =
    (e : Bool) × (next : S) × (rest : Bytes) × (errs : Bool) × (f m t ≡ done next e rest)
    × (err ≡ (e || errs))
    × AreApplied f ms next t' errs

-- The step ends with the messages that wait for a later update tick, all others applied in their order, or
-- with a panic.
unfoldable pub KeepsLate :
    {S : Type 0}
    → (BufferedMutate → S → Step S Bool)
    → RepliconTick
    → List BufferedMutate
    → S
    → Step S (List BufferedMutate × Bool)
    → Type 0
KeepsLate f tick ms t (done t' r rest) =
    (r.0 ≡ retain (λ m. tick_gt m.update_tick tick) ms)
    × AreApplied f (retain (λ m. not (tick_gt m.update_tick tick)) ms) t t' r.1
KeepsLate f tick ms t (failed t') = ⊥
KeepsLate f tick ms t panicked_at = Unit
KeepsLate f tick ms t unfinished = ⊥

-- The step ends with a result or with a panic.
Returned : {S A : Type 0} → Step S A → Type 0
Returned (done t a rest) = Unit
Returned (failed t) = ⊥
Returned panicked_at = Unit
Returned unfinished = ⊥

confirm-Returned :
    {S : Type 0} (o : Outcome S) (b : Bool) → Returned (resume (after o tt []) (λ _. pure b))
unfolding Returned
confirm-Returned (ok t) b = tt
confirm-Returned panic b = tt

resume-KeepsLate :
    {S A : Type 0} (f : BufferedMutate → S → Step S Bool) (tick : RepliconTick)
    (ms : List BufferedMutate) (t : S) (s : Step S A)
    (k : A → Action S (List BufferedMutate × Bool))
    → Returned s
    → ((t' : S) (a : A) (rest : Bytes) → s ≡ done t' a rest → KeepsLate f tick ms t (k a t' rest))
    → KeepsLate f tick ms t (resume s k)
unfolding Returned KeepsLate
resume-KeepsLate f tick ms t (done t' a rest) k h j = j t' a rest refl
resume-KeepsLate f tick ms t (failed t') k h j = elim h [ ]
resume-KeepsLate f tick ms t panicked_at k h j = tt
resume-KeepsLate f tick ms t unfinished k h j = elim h [ ]

pure-KeepsLate :
    {S : Type 0} (f : BufferedMutate → S → Step S Bool) (tick : RepliconTick)
    (ms ns : List BufferedMutate) (t t0 : S) (s : Step S (List BufferedMutate × Bool))
    (g : List BufferedMutate × Bool → List BufferedMutate × Bool)
    → KeepsLate f tick ms t s
    → ((t' : S) (r : List BufferedMutate × Bool)
        → r.0 ≡ retain (λ m. tick_gt m.update_tick tick) ms
        → AreApplied f (retain (λ m. not (tick_gt m.update_tick tick)) ms) t t' r.1
        → ((g r).0 ≡ retain (λ m. tick_gt m.update_tick tick) ns)
          × AreApplied f (retain (λ m. not (tick_gt m.update_tick tick)) ns) t0 t' (g r).1)
    → KeepsLate f tick ns t0 (resume s (λ r. pure (g r)))
unfolding KeepsLate
pure-KeepsLate f tick ms ns t t0 (done t' r rest) g h j = j t' r h.0 h.1
pure-KeepsLate f tick ms ns t t0 (failed t') g h j = elim h [ ]
pure-KeepsLate f tick ms ns t t0 panicked_at g h j = tt
pure-KeepsLate f tick ms ns t t0 unfinished g h j = elim h [ ]

module _ {W Component : Type 0} (w : Wire Component) (laws : IsReader w)
    (e : World W Component) where
  mutation-IsTaking :
      (tick : RepliconTick) (new_tick : Bool) (entity : ℕ)
      → IsTaking (apply_mutation w e true tick new_tick entity)
  unfolding apply_mutation
  mutation-IsTaking tick new_tick entity =
      bind-IsTaking _ _ (read-IsTaking w.read_fns_id (fns_id-Leaves w laws)) (λ id.
        bind-IsEnding _ _ (change-IsEnding _) (λ _.
          bind-IsEnding _ _ (read-IsEnding (w.read_component id) (component-Leaves w laws id))
            (λ c. change-IsEnding _)))

  until_position-Within :
      (f : Action (Client W) (Unit {0}))
      → IsTaking f
      → (fuel : ℕ) (message : Bytes) (end_pos len : ℕ) (t : Client W) (bytes : Bytes)
      → length bytes < fuel
      → Within (suc (length bytes)) (until_position w e true fuel message end_pos len f t bytes)
  unfolding until_position bind
  until_position-Within f takes zero message end_pos len t bytes l =
      let no : ⊥ = omega (arith, l) in elim no [ ]
  until_position-Within f takes (suc fuel) message end_pos len t bytes l =
      if-Within (suc (length bytes)) (ltb (length message - length bytes) end_pos) _ _
        (resume-Within (length bytes) (suc (length bytes)) (f t bytes) _ (takes t bytes)
          (λ t' _ rest l'.
            weaken-Within (suc (length rest)) (suc (length bytes)) _ (omega (arith, l')) (
              until_position-Within f takes fuel message end_pos (len + 1) t' rest
                (omega (arith, l, l')))))
        (pure-IsEnding len t bytes)

  set_position-Within :
      {S : Type 0} (t : S) (message bytes : Bytes) (a b : ℕ)
      → length message - length bytes ≤ a
      → Within (suc (length bytes)) (set_position message (add_u64 true a b) t)
  unfolding Within add_u64
  set_position-Within t message bytes a b l = elim (Bool-cases (ltb (a + b) u64_mod)) [
    | inl fits ↦ rw fits (omega (arith, l, length-drop (a + b) message))
    | inr wraps ↦ rw wraps tt
  ]

  to-IsEnding :
      (tick : RepliconTick) (message : Bytes) (entity : ℕ) (new_tick : Bool) (end_pos : Outcome ℕ)
      → IsEnding (apply_to w e true tick message entity new_tick end_pos)
  unfolding apply_to finish_entity bind
  to-IsEnding tick message entity new_tick panic t bytes = unfold Within in tt
  to-IsEnding tick message entity new_tick (ok end_pos) t bytes =
      let f = apply_mutation w e true tick new_tick entity in
      let n = length bytes in
      resume-Within (suc n) (suc n) (until_position w e true (suc n) message end_pos 0 f t bytes) _
        (until_position-Within f (mutation-IsTaking tick new_tick entity) (suc n) message end_pos 0
          t bytes (omega arith))
        (λ t' _ rest l.
          weaken-Within (suc (length rest)) (suc n) _ (omega (arith, l))
            (change-IsEnding _ t' rest))

  verdict-IsEnding :
      (tick : RepliconTick) (message : Bytes) (size entity : ℕ) (v : Verdict)
      → IsEnding (apply_verdict w e true tick message size entity v)
  unfolding apply_verdict skip
  verdict-IsEnding tick message size entity Verdict.ignore t bytes =
      set_position-Within t message bytes (length message - length bytes) size (omega arith)
  verdict-IsEnding tick message size entity (Verdict.apply new_tick) t bytes =
      to-IsEnding tick message entity new_tick _ t bytes

  found-IsEnding :
      (tick : RepliconTick) (message : Bytes) (size : ℕ) (found : Option ℕ)
      → IsEnding (apply_found w e true tick message size found)
  unfolding apply_found skip
  found-IsEnding tick message size none t bytes =
      set_position-Within t message bytes (length message - length bytes) size (omega arith)
  found-IsEnding tick message size (some entity) t bytes =
      bind-IsEnding _ _ (run-IsEnding _) (λ v. verdict-IsEnding tick message size entity v) t bytes

  mutations-IsTaking :
      (tick : RepliconTick) (message : Bytes) → IsTaking (apply_mutations w e true tick message)
  unfolding apply_mutations
  mutations-IsTaking tick message =
      bind-IsTaking _ _ (read_entity-IsTaking w laws e true) (λ server_entity.
        bind-IsEnding _ _ (taking-IsEnding _ (read-IsTaking w.read_varint (varint-Leaves w laws)))
          (λ size t bytes.
            found-IsEnding tick message size (get_by_server t.entity_map server_entity) t bytes))

  -- The end of a message's array.
  applied-Returned :
      (m : BufferedMutate) (s : Step (Client W) ℕ) (n : ℕ)
      → Within n s
      → Returned (elim s as (λ _. Step (Client W) Bool) [
        | done t' len _ ↦
            resume (change (confirm_mutate w e true m) (count_entities len t') []) (λ _. pure false)
        | failed t' ↦ resume (change (confirm_mutate w e true m) t' []) (λ _. pure true)
        | panicked_at ↦ panicked_at
        | unfinished ↦ unfinished
      ])
  unfolding Within change
  applied-Returned m (done t len rest) n h = confirm-Returned _ false
  applied-Returned m (failed t) n h = confirm-Returned _ true
  applied-Returned m panicked_at n h = unfold Returned in tt
  applied-Returned m unfinished n h = elim h [ ]

  apply_mutate-Returned : (m : BufferedMutate) (t : Client W) → Returned (apply_mutate w e true m t)
  unfolding apply_mutate
  apply_mutate-Returned m t = applied-Returned m _ (suc (length m.message)) (
      apply_array-IsEnding w laws ArrayKind.dynamic
        (apply_mutations w e true m.message_tick m.message)
        (mutations-IsTaking m.message_tick m.message) t m.message)

  -- In a build with overflow checks, and where a read of a number takes a byte at least and no read adds bytes:
  -- whatever the buffered messages hold, applying them ends, with a result or a panic. With a
  -- result, exactly the messages whose update tick is later stay in the buffer, and each of the others has been
  -- applied, in their order, also behind one that has an error; the result says whether one has.
  pub apply_mutate_messages-KeepsLate :
      (update_tick : RepliconTick) (ms : List BufferedMutate) (t : Client W)
      → KeepsLate
          (apply_mutate w e true)
          update_tick
          ms
          t
          (apply_mutate_messages w e true update_tick ms t)
  unfolding apply_mutate_messages AreApplied
  apply_mutate_messages-KeepsLate update_tick [] t = unfold KeepsLate in (refl, (refl, refl))
  apply_mutate_messages-KeepsLate update_tick (m ∷ ms) t =
      let f = apply_mutate w e true in
      elim (Bool-cases (tick_gt m.update_tick update_tick)) [
        | inl late ↦ rw late (
            pure-KeepsLate f update_tick ms (m ∷ ms) t t _ (λ r. (m ∷ r.0, r.1))
              (apply_mutate_messages-KeepsLate update_tick ms t)
              (λ t' r h a. (rw late (ap (λ ns. m ∷ ns) h), rw late a)))
        | inr ready ↦ rw ready (
            resume-KeepsLate f update_tick (m ∷ ms) t (apply_mutate w e true m t) _
              (apply_mutate-Returned m t)
              (λ t' err rest one.
                pure-KeepsLate f update_tick ms (m ∷ ms) t' t _ (λ r. (r.0, err || r.1))
                  (apply_mutate_messages-KeepsLate update_tick ms t')
                  (λ t'' r h a. (rw ready h, rw ready (err, t', rest, r.1, one, refl, a)))))
      ]
