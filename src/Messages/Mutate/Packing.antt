-- ===== src/Messages/Mutate/Packing.antt =====
-- server/replication_messages/mutate_message.rs: the packing puts each mutated entity in one message.
use bevy_mod_replication.Common.{
  ℕ, ◌+◌, ◌≤◌, ◌≡◌, refl, sym, subst, Bool, not, ◌||◌, List, [], ◌∷◌, ◌++◌, length, if◌then◌else◌,
  arith, Bool-cases, inl, inr,
}
use bevy_mod_replication.Clients.{ReplicatedClient, ClientBuffers}
use bevy_mod_replication.Wire.{Wire}
use bevy_mod_replication.Messages.{Range, is_empty as is_empty_range}
use bevy_mod_replication.Messages.Changes.{ComponentChanges}
use bevy_mod_replication.Messages.Mutate.{
  MutateMessage, Packer, start_message, is_full, finish_message, pack_entity, pack_all, pack,
  mutations_size, max_count_size,
}

-- The messages' ranges follow one another from the first number to the second.
unfoldable pub Covers : ℕ → List (ℕ × ℕ × Range) → ℕ → Type 0
Covers a [] b = a ≡ b
Covers a (m ∷ ms) b = (m.2.start ≡ a) × (m.2.start ≤ m.2.end) × Covers m.2.end ms b

append-Covers :
    (a b : ℕ) (ms : List (ℕ × ℕ × Range)) (m : ℕ × ℕ × Range)
    → Covers a ms b
    → m.2.start ≡ b
    → m.2.start ≤ m.2.end
    → Covers a (ms ++ (m ∷ [])) m.2.end
unfolding Covers
append-Covers a b [] m h e l = (omega (arith, h, e), l, refl)
append-Covers a b (n ∷ ms) m h e l = (h.0, h.1, append-Covers n.2.end b ms m h.2 e l)

-- A packer after the first entities.
record IsPacking (p : Packer) (k : ℕ) : Type 0 where
  covers : Covers 0 p.messages p.range.start
  ordered : p.range.start ≤ p.range.end
  count : p.range.end ≡ k

module _ {Component : Type 0} (w : Wire Component) where
  module _ (metadata_size tick timestamp : ℕ) where
    finish-Covers :
        (p : Packer) (k : ℕ)
        → IsPacking p k
        → Covers 0 (finish_message w metadata_size tick timestamp p).messages k
    unfolding finish_message
    finish-Covers p k h =
        subst
          (λ n.
            Covers 0 (p.messages ++ ((p.mutate_index, p.body_size + p.header_size, p.range) ∷ []))
              n)
          h.count
          (append-Covers 0 p.range.start p.messages
            (p.mutate_index, p.body_size + p.header_size, p.range) h.covers refl h.ordered)

    pack_entity-IsPacking :
        (p : Packer) (k entity : ℕ) (changes : ComponentChanges)
        → IsPacking p k
        → IsPacking (pack_entity w metadata_size tick timestamp p entity changes) (k + 1)
    unfolding pack_entity start_message
    pack_entity-IsPacking p k entity changes h =
        elim (Bool-cases (is_full w metadata_size tick timestamp p (mutations_size w changes))) [
          | inl full ↦ rw full (record {
            covers =
                subst (λ n. Covers 0 (finish_message w metadata_size tick timestamp p).messages n)
                  (sym h.count) (finish-Covers p k h);
            ordered = omega arith;
            count = omega (arith, h.count);
          })
          | inr fits ↦ rw fits (record {
            covers = h.covers;
            ordered = omega (arith, h.ordered);
            count = omega (arith, h.count);
          })
        ]

    pack_all-IsPacking :
        (p : Packer) (k n : ℕ) (entities : List ℕ) (mutations : List ComponentChanges)
        → length entities ≡ length mutations
        → n ≡ k + length entities
        → IsPacking p k
        → IsPacking (pack_all w metadata_size tick timestamp p entities mutations) n
    unfolding pack_all
    pack_all-IsPacking p k n [] mutations e l h = subst (λ x. IsPacking p x) (omega (arith, l)) h
    pack_all-IsPacking p k n (entity ∷ entities) [] e l h =
        let no : ⊥ = omega (arith, e) in elim no [ ]
    pack_all-IsPacking p k n (entity ∷ entities) (changes ∷ mutations) e l h =
        pack_all-IsPacking (pack_entity w metadata_size tick timestamp p entity changes) (k + 1) n
          entities mutations (omega (arith, e)) (omega (arith, l))
          (pack_entity-IsPacking p k entity changes h)

    finished-Covers :
        (p : Packer) (k : ℕ) (track : Bool)
        → IsPacking p k
        → Covers 0
            (if not (is_empty_range p.range) || track
              then finish_message w metadata_size tick timestamp p
              else p).messages
            k
    finished-Covers p k track h = elim (Bool-cases (not (is_empty_range p.range) || track)) [
      | inl some_left ↦ rw some_left (finish-Covers p k h)
      | inr none_left ↦
          let same : p.range.start ≡ k = ground (arith, none_left, h.ordered, h.count) in
          rw none_left (subst (λ n. Covers 0 p.messages n) same h.covers)
    ]

  -- The mutations of a message with as many entities as mutations are packed into messages whose ranges
  -- follow one another from the first entity to the last: each entity is in exactly one message, in order.
  pub pack-Covers :
      (m : MutateMessage) (client : ReplicatedClient) (buffers : ClientBuffers) (track : Bool)
      (server_tick_len tick timestamp : ℕ)
      → length m.entities ≡ length m.mutations
      → Covers 0
          (pack w m client buffers track server_tick_len tick timestamp).messages
          (length m.entities)
  unfolding pack start_message Covers
  pack-Covers m client buffers track server_tick_len tick timestamp e =
      let metadata_size =
        length (w.tick client.update_tick)
        + server_tick_len
        + (if track then max_count_size else 0) in
      finished-Covers metadata_size tick timestamp _ (length m.entities) track (
        pack_all-IsPacking metadata_size tick timestamp _ 0 (length m.entities) m.entities
          m.mutations e (omega arith)
          (record { covers = refl; ordered = omega arith; count = refl }))
