-- ===== src/Receive/RoundTrip.antt =====
-- client.rs and server/replication_messages/update_message.rs: what the server writes for a content,
-- the client applies as that content.
use mathlib.Core.Bool.{false≢true}
use bevy_mod_replication.Common.{
  ℕ, ◌+◌, ◌<◌, ◌≡◌, refl, sym, ap, ◌∙◌, Bool, false, not, Option, none, some, List, [], ◌∷◌, ◌++◌,
  length, Outcome, ok, panic, ◌>>=◌, arith, retain, ◌==◌, debug_assert, length-append, Bool-cases,
  inl, inr, debug_assert-true,
}
use bevy_mod_replication.Tick.{RepliconTick}
use bevy_mod_replication.Backend.Server.{Bytes}
use bevy_mod_replication.Wire.{Wire, IsWire}
use bevy_mod_replication.Wire.Entities.{serialize_entity, serialize_entity_some}
use bevy_mod_replication.Messages.{Range, is_empty, concat, mapping_bytes}
use bevy_mod_replication.Messages.Flags.{
  Section, iter_names, flags_of-Ends, Ends, is_set, flags_of-is_set,
}
use bevy_mod_replication.Messages.Slices.{Holds, HoldAll, len-Holds}
use bevy_mod_replication.Messages.Update.{UpdateMessage, has, flags, write}
use bevy_mod_replication.Messages.Update.Content.{Content, Each, Represents}
use bevy_mod_replication.Messages.Update.Written.{encode}
use bevy_mod_replication.Messages.Update.Sent.{IsSendable, write-encode}
use bevy_mod_replication.Receive.{read_byte, check, apply_sections, apply_update_message}
use bevy_mod_replication.Receive.Items.{
  World, Client, Stats, count_mappings, count_despawns, count_entities,
}
use bevy_mod_replication.Receive.Steps.{Action, Step, after, run, ◌>>=◌ as bind}
use bevy_mod_replication.Receive.Arrays.{replay, read-value, bind-after, bind-change}
use bevy_mod_replication.Receive.Updates.{
  IsContent, replay_section, apply_section_sized, apply_section_dynamic,
}

concat_none :
    {A Component : Type 0} (w : Wire Component) (enc : A → Bytes)
    → ((x : A) → 0 < length (enc x))
    → (xs : List A) → length (concat w enc xs) ≡ 0
    → xs ≡ []
unfolding concat
concat_none w enc long [] h = refl
concat_none w enc long (x ∷ xs) h =
    let no : ⊥ = omega (arith, h, long x, length-append (enc x) (concat w enc xs)) in elim no [ ]

same_stats :
    (f : Stats → Stats)
    → ((s : Stats) → f s ≡ s)
    → (o : Option Stats) → elim o as (λ _. Option Stats) [ none ↦ none | some s ↦ some (f s) ] ≡ o
same_stats f h none = refl
same_stats f h (some s) = ap (λ (x : Stats). some x) (h s)

plus_zero : (n : ℕ) → n + 0 ≡ n
plus_zero n = omega arith

bind_same :
    {S : Type 0} (o : Outcome S) (f g : S → Outcome S)
    → ((t : S) → f t ≡ g t)
    → (o >>= f) ≡ (o >>= g)
bind_same (ok t) f g h = h t
bind_same panic f g h = refl

cons≢nil : {A : Type 0} (x : A) (xs : List A) → ¬ ((x ∷ xs) ≡ [])
cons≢nil x xs h = omega (arith, ap length h)

despawns-none :
    (s : Bytes) (rs : List Range) (bytes : Bytes)
    → HoldAll s rs bytes
    → has rs ≡ false
    → length bytes ≡ 0
unfolding HoldAll
despawns-none s [] bytes h k = sym (ap length h)
despawns-none s (r ∷ rs) bytes h k = elim (false≢true (sym k)) [ ]

Each-none :
    {A B : Type 0} (R : A → B → Type 0) (xs : List A) (ys : List B)
    → Each R xs ys
    → has xs ≡ false
    → ys ≡ []
unfolding Each
Each-none R [] [] h k = refl
Each-none R [] (y ∷ ys) h k = elim h [ ]
Each-none R (x ∷ xs) ys h k = elim (false≢true (sym k)) [ ]

replay_none :
    {S X : Type 0} (g : X → S → Outcome S) (count : ℕ → S → S) (xs : List X) (t : S)
    → xs ≡ []
    → count 0 t ≡ t
    → (replay g xs t >>= λ t'. ok (count (length xs) t')) ≡ ok t
unfolding replay
replay_none g count [] t h k = ap ok k
replay_none g count (x ∷ xs) t h k = elim (cons≢nil x xs h) [ ]

module _ {W Component : Type 0} (w : Wire Component) (e : World W Component) (checks : Bool)
    (tick : RepliconTick) where
  unfoldable pub replay_sections : Content Component → List Section → Client W → Outcome (Client W)
  replay_sections c [] t = ok t
  replay_sections c (f ∷ fs) t =
      replay_section w e checks tick c f t >>= λ t'. replay_sections c fs t'

  -- What a content does to a client: its mappings, despawns, removals and changes, in this order.
  unfoldable pub replay_content : Content Component → Client W → Outcome (Client W)
  unfolding replay_sections
  replay_content c =
      replay_sections c
        (Section.mappings ∷ Section.despawns ∷ Section.removals ∷ Section.changes ∷ [])

  -- Before the content, the message is counted, and its tick is the last update tick.
  abbrev pub start_update : ℕ → Client W → Client W
  start_update size t = record t {
    stats = elim t.stats [
      | none ↦ none
      | some s ↦ some (record s { messages = s.messages + 1; bytes = s.bytes + size })
    ];
    update_tick = tick;
  }

  abbrev IsNothing : Content Component → Section → Type 0
  IsNothing c Section.mappings = c.mappings ≡ []
  IsNothing c Section.despawns = c.despawns ≡ []
  IsNothing c Section.removals = c.removals ≡ []
  IsNothing c Section.changes = c.changes ≡ []

  replay_section_none :
      (c : Content Component) (f : Section) (t : Client W)
      → IsNothing c f
      → replay_section w e checks tick c f t ≡ ok t
  unfolding replay_section
  replay_section_none c Section.mappings t h = replay_none _ count_mappings c.mappings t h (
      ap (λ o. record t { stats = o })
        (same_stats _ (λ s. ap (λ n. record s { mappings = n }) (plus_zero s.mappings)) t.stats))
  replay_section_none c Section.despawns t h = replay_none _ count_despawns c.despawns t h (
      ap (λ o. record t { stats = o })
        (same_stats _ (λ s. ap (λ n. record s { despawns = n }) (plus_zero s.despawns)) t.stats))
  replay_section_none c Section.removals t h = replay_none _ count_entities c.removals t h (
      ap (λ o. record t { stats = o })
        (same_stats _
          (λ s. ap (λ n. record s { entities_changed = n }) (plus_zero s.entities_changed))
          t.stats))
  replay_section_none c Section.changes t h = replay_none _ count_entities c.changes t h (
      ap (λ o. record t { stats = o })
        (same_stats _
          (λ s. ap (λ n. record s { entities_changed = n }) (plus_zero s.entities_changed))
          t.stats))

  replay_sections-retain :
      (c : Content Component) (p : Section → Bool)
      → ((f : Section) → p f ≡ false → IsNothing c f)
      → (fs : List Section) (t : Client W)
      → replay_sections c (retain p fs) t ≡ replay_sections c fs t
  unfolding replay_sections
  replay_sections-retain c p h [] t = refl
  replay_sections-retain c p h (f ∷ fs) t = elim (Bool-cases (p f)) [
    | inl kept ↦ rw kept (bind_same _ _ _ (λ t'. replay_sections-retain c p h fs t'))
    | inr dropped ↦
        rw (dropped, replay_section_none c f t (h f dropped)) (replay_sections-retain c p h fs t)
  ]

  module _ (laws : IsWire w) where
    mapping_some : (x : ℕ × ℕ) → 0 < length (mapping_bytes w x)
    mapping_some x = omega (
      arith,
      serialize_entity_some w laws x.0,
      length-append (serialize_entity w x.0) (serialize_entity w x.1),
    )

    unset-IsNothing :
        (s : Bytes) (m : UpdateMessage) (c : Content Component)
        → Represents w s m c
        → (f : Section) → is_set (flags m) f ≡ false
        → IsNothing c f
    unfolding flags
    unset-IsNothing s m c h Section.mappings k =
        let bits =
          flags_of-is_set (not (is_empty m.mappings)) (has m.despawns) (has m.removals)
            (has m.changes) in
        let off : not (is_empty m.mappings) ≡ false = sym bits.0 ∙ k in
        concat_none w (mapping_bytes w) (λ x. mapping_some x) c.mappings
          (ground (arith, len-Holds s m.mappings _ h.mappings, off))
    unset-IsNothing s m c h Section.despawns k =
        let bits =
          flags_of-is_set (not (is_empty m.mappings)) (has m.despawns) (has m.removals)
            (has m.changes) in
        concat_none w (serialize_entity w) (serialize_entity_some w laws) c.despawns
          (despawns-none s m.despawns _ h.despawns (sym bits.1 ∙ k))
    unset-IsNothing s m c h Section.removals k =
        let bits =
          flags_of-is_set (not (is_empty m.mappings)) (has m.despawns) (has m.removals)
            (has m.changes) in
        Each-none _ m.removals c.removals h.removals (sym bits.2 ∙ k)
    unset-IsNothing s m c h Section.changes k =
        let bits =
          flags_of-is_set (not (is_empty m.mappings)) (has m.despawns) (has m.removals)
            (has m.changes) in
        Each-none _ m.changes c.changes h.changes (sym bits.3 ∙ k)

    apply_sections-encode :
        (c : Content Component) (l : ℕ) (fs : List Section) (t : Client W)
        → IsContent c
        → Ends l fs
        → apply_sections w e checks tick l fs t (encode w c fs)
          ≡ after (replay_sections c fs t) tt []
    unfolding apply_sections encode replay_sections
    apply_sections-encode c l [] t good ends = elim ends [ ]
    apply_sections-encode c l (f ∷ []) t good ends = rw ends.0 (
        bind-after _ _ t _ _ tt [] (apply_section_dynamic w e checks tick laws c f t good ends.1)
          (λ t'. refl))
    apply_sections-encode c l (f ∷ g ∷ fs) t good ends = rw ends.0 (
        bind-after _ _ t _ _ tt []
          (apply_section_sized w e checks tick laws c f t (encode w c (g ∷ fs)) good ends.1)
          (λ t'. apply_sections-encode c l (g ∷ fs) t' good ends.2))

    bind-check :
        {A B : Type 0} (o : Outcome A) (a : A) (k : A → Action (Client W) B) (t : Client W)
        {bytes : Bytes} {r : Step (Client W) B}
        → o ≡ ok a
        → k a t bytes ≡ r
        → bind (check w e checks o) k t bytes ≡ r
    unfolding check bind run
    bind-check o a k t h j = rw h j

    -- For encodings that are read back as written: a message that stands for a content and has
    -- more than mappings, with a tick below 2 ^ 32, entities that are Bevy's and ids and numbers
    -- of items below 2 ^ 64, is written, and whatever state a client is in, it receives the bytes
    -- by counting the message, taking its tick and replaying the content, to the last byte; it
    -- panics where the replay does.
    pub apply_update_message-write :
        (s : Bytes) (m : UpdateMessage) (c : Content Component) (server_tick : Range) (t : Client W)
        → Represents w s m c
        → Holds s server_tick (w.tick tick)
        → tick < 4294967296
        → IsSendable m
        → IsContent c
        → (message : Bytes) × (write w checks m s server_tick ≡ ok (some message))
          × (apply_update_message w e checks t message
              ≡ after (replay_content c (start_update (length message) t)) tt [])
    unfolding apply_update_message replay_content flags read_byte
    apply_update_message-write s m c server_tick t h k small sendable good =
        let bits = flags m in
        let fs = iter_names bits in
        let message = bits ∷ (w.tick tick ++ encode w c fs) in
        let ends =
          flags_of-Ends checks (not (is_empty m.mappings)) (has m.despawns) (has m.removals)
            (has m.changes) sendable in
        let nonzero : debug_assert checks (not (bits == 0)) ≡ ok tt =
          rw ends.3 (debug_assert-true checks) in
        let all : List Section =
          Section.mappings ∷ Section.despawns ∷ Section.removals ∷ Section.changes ∷ [] in
        let received : (t2 : Client W)
            → apply_sections w e checks tick ends.0 fs t2 (encode w c fs)
              ≡ after (replay_content c t2) tt [] =
          λ t2.
            apply_sections-encode c ends.0 fs t2 good ends.2
            ∙ ap (λ o. after o tt [])
                (unfold iter_names in
                  replay_sections-retain c (is_set bits) (unset-IsNothing s m c h) all t2) in
        (
          message,
          write-encode w checks s m c server_tick tick h k sendable,
          bind-change _ _ t _ (λ t1. replay_content c (record t1 { update_tick = tick })) tt []
              (λ t1. read-value read_byte _ t1 refl (
                bind-check _ _ _ t1 nonzero (
                  read-value w.read_tick _ t1 (laws.tick_read tick (encode w c fs) small) (
                    bind-change _ _ t1 _ (λ t2. replay_content c t2) tt []
                      (λ t2. bind-check _ _ _ t2 ends.1 (received t2)))))),
        )
