-- ===== src/Messages/Mutate.antt =====
-- server/replication_messages/mutate_message.rs: `MutateMessage`, the mutations for one client, and
-- how they are packed into messages.
pub mod Packing
use bevy_mod_replication.Common.{
  ℕ, ◌+◌, ◌-◌, ◌%◌, Bool, true, false, not, ◌&&◌, ◌||◌, Option, none, some, List, [], ◌∷◌, ◌++◌,
  length, take, drop, ltb, leb, ◌==◌, if◌then◌else◌, Outcome, ok, panic, ◌>>=◌, ◌>>◌, debug_assert,
}
use bevy_mod_replication.Clients.{
  ReplicatedClient, ClientBuffers, register_mutate_message, push_entity,
}
use bevy_mod_replication.Backend.Server.{Bytes, RepliconServer, send as server_send}
use bevy_mod_replication.Wire.{Wire}
use bevy_mod_replication.Messages.{Range, len, is_empty as is_empty_range, slice, slices}
use bevy_mod_replication.Messages.Changes.{ComponentChanges, components_size, add_component}

pub record MutateMessage : Type 0 where
  pub entities : List ℕ
  pub mutations : List ComponentChanges
  pub mutations_written : Bool

unfoldable pub start_entity_mutations : MutateMessage → MutateMessage
start_entity_mutations m = record m { mutations_written = false }

unfoldable pub add_mutated_entity : MutateMessage → ℕ → Range → MutateMessage
add_mutated_entity m entity entity_range = record {
  mutations =
      m.mutations ++ (record { entity = entity_range; components_len = 0; components = [] } ∷ []);
  entities = m.entities ++ (entity ∷ []);
  mutations_written = true;
}

-- `last_mut().expect(…)`: a change of the last element.
unfoldable pub change_last : {A : Type 0} → (A → A) → List A → Outcome (List A)
change_last f [] = panic
change_last f (a ∷ []) = ok (f a ∷ [])
change_last f (a ∷ b ∷ rest) = elim (change_last f (b ∷ rest)) [
  | panic ↦ panic
  | ok changed ↦ ok (a ∷ changed)
]

unfoldable pub add_mutated_component : MutateMessage → Range → Outcome MutateMessage
unfolding change_last
add_mutated_component m component =
    change_last (λ c. add_component c component) m.mutations >>= λ mutations.
    ok (record m { mutations = mutations })

unfoldable pub last_of : {A : Type 0} → List A → Option A
last_of [] = none
last_of (a ∷ []) = some a
last_of (a ∷ b ∷ rest) = last_of (b ∷ rest)

-- `Vec::pop`, what is left.
unfoldable pub pop_last : {A : Type 0} → List A → List A
pop_last [] = []
pop_last (a ∷ []) = []
pop_last (a ∷ b ∷ rest) = a ∷ pop_last (b ∷ rest)

unfoldable pub last_mutations : MutateMessage → Option ComponentChanges
unfolding last_of
last_mutations m = last_of m.mutations

unfoldable pub pop_mutations : MutateMessage → MutateMessage
unfolding pop_last
pop_mutations m = record m { entities = pop_last m.entities; mutations = pop_last m.mutations }

unfoldable pub is_empty : MutateMessage → Bool
is_empty m = elim m.mutations [ [] ↦ true | _ ∷ _ ↦ false ]

unfoldable pub clear : MutateMessage → MutateMessage
clear m = record m { entities = []; mutations = [] }

-- `MAX_PACKET_SIZE`.
abbrev pub max_packet_size : ℕ
max_packet_size = 1200

unfoldable pub can_pack : ℕ → ℕ → Bool
can_pack message_size add =
    let dangling = message_size % max_packet_size in
    ltb 0 dangling && leb (dangling + add) max_packet_size

-- `MAX_COUNT_SIZE`, on a target of 64 bits.
abbrev pub max_count_size : ℕ
max_count_size = 9

-- The variables of the packing loop, with the client and its buffers.
pub record Packer : Type 0 where
  pub messages : List (ℕ × ℕ × Range)
  pub client : ReplicatedClient
  pub buffers : ClientBuffers
  pub mutate_index : ℕ
  pub header_size : ℕ
  pub body_size : ℕ
  pub range : Range

module _ {Component : Type 0} (w : Wire Component) where
  abbrev pub required_space : ℕ → ℕ
  required_space n = length (w.varint n)

  unfoldable pub mutations_size : ComponentChanges → ℕ
  mutations_size c = len c.entity + required_space (components_size c) + components_size c

  module _ (metadata_size tick timestamp : ℕ) where
    -- `register_mutate_message`, with the header's size for the new index.
    unfoldable pub start_message : Packer → Range → Packer
    start_message p range =
        let r = register_mutate_message p.client p.buffers tick timestamp in
        record p {
          client = r.0;
          buffers = r.1;
          mutate_index = r.2;
          header_size = metadata_size + required_space r.2;
          body_size = 0;
          range = range;
        }

    unfoldable pub is_full : Packer → ℕ → Bool
    is_full p size =
        not (p.body_size == 0)
        && not (can_pack (p.header_size + p.body_size) size)
        && not (can_pack (p.header_size + size) p.body_size)

    unfoldable pub finish_message : Packer → Packer
    finish_message p = record p {
      messages = p.messages ++ ((p.mutate_index, p.body_size + p.header_size, p.range) ∷ []);
    }

    unfoldable pub pack_entity : Packer → ℕ → ComponentChanges → Packer
    pack_entity p entity changes =
        let size = mutations_size changes in
        let q =
          if is_full p size
          then start_message (finish_message p) (record { start = p.range.end; end = p.range.end })
          else p in
        record q {
          client = push_entity q.client q.mutate_index entity;
          range = record { start = q.range.start; end = q.range.end + 1 };
          body_size = q.body_size + size;
        }

    unfoldable pub pack_all : Packer → List ℕ → List ComponentChanges → Packer
    pack_all p (entity ∷ entities) (changes ∷ mutations) =
        pack_all (pack_entity p entity changes) entities mutations
    pack_all p [] mutations = p
    pack_all p (entity ∷ entities) [] = p

  -- The bytes of one message.
  unfoldable pub write_mutations : Bytes → List ComponentChanges → Outcome Bytes
  write_mutations serialized [] = ok []
  write_mutations serialized (c ∷ cs) = slice serialized c.entity >>= λ entity.
      slices serialized c.components >>= λ components. write_mutations serialized cs >>= λ rest.
      ok (entity ++ (w.varint (components_size c) ++ (components ++ rest)))

  unfoldable pub write_message :
      Bool
      → Bytes
      → Bytes
      → Range
      → Bool
      → ℕ
      → List ComponentChanges
      → ℕ × ℕ × Range
      → Outcome Bytes
  unfolding write_mutations
  write_message checks serialized update_tick server_tick track messages_count mutations message =
      let range = message.2 in
      let size =
        if track then message.1 - (max_count_size - required_space messages_count) else message.1 in
      let count = if track then w.varint messages_count else [] in
      slice serialized server_tick >>= λ tick.
      write_mutations serialized (take (range.end - range.start) (drop range.start mutations))
      >>= λ body.
          let bytes = update_tick ++ (tick ++ (count ++ (w.varint message.0 ++ body))) in
          debug_assert checks (length bytes == size) >> ok bytes

  unfoldable pub send_messages :
      Bool
      → Bytes
      → Bytes
      → Range
      → Bool
      → ℕ
      → List ComponentChanges
      → ℕ
      → RepliconServer
      → List (ℕ × ℕ × Range)
      → Outcome RepliconServer
  unfolding write_message
  send_messages checks serialized update_tick server_tick track messages_count mutations client_id
        server [] =
      ok server
  send_messages checks serialized update_tick server_tick track messages_count mutations client_id
        server (m ∷ ms) =
      write_message checks serialized update_tick server_tick track messages_count mutations m
      >>= λ bytes.
          send_messages checks serialized update_tick server_tick track messages_count mutations
            client_id (server_send server client_id 1 bytes) ms

  -- The packer after all entities, with the leftovers in a message.
  unfoldable pub pack : MutateMessage → ReplicatedClient → ClientBuffers → Bool → ℕ → ℕ → ℕ → Packer
  pack m client buffers track server_tick_len tick timestamp =
      let metadata_size =
        length (w.tick client.update_tick)
        + server_tick_len
        + (if track then max_count_size else 0) in
      let empty_range : Range = record { start = 0; end = 0 } in
      let blank : Packer = record {
        messages = [];
        client = client;
        buffers = buffers;
        mutate_index = 0;
        header_size = 0;
        body_size = 0;
        range = empty_range;
      } in
      let p =
        pack_all metadata_size tick timestamp
          (start_message metadata_size tick timestamp blank empty_range) m.entities m.mutations in
      if not (is_empty_range p.range) || track
      then finish_message metadata_size tick timestamp p
      else p

  unfoldable pub send :
      Bool
      → MutateMessage
      → RepliconServer
      → ReplicatedClient
      → ClientBuffers
      → Bytes
      → Bool
      → Range
      → ℕ
      → ℕ
      → Outcome (RepliconServer × ReplicatedClient × ClientBuffers × ℕ)
  unfolding pack send_messages
  send checks m server client buffers serialized track server_tick tick timestamp =
      let p = pack m client buffers track (len server_tick) tick timestamp in
      let messages_count = length p.messages in
      debug_assert checks (length m.entities == length m.mutations)
      >> send_messages checks serialized (w.tick client.update_tick) server_tick track
          messages_count m.mutations client.id server p.messages
      >>= λ sent. ok (sent, p.client, p.buffers, messages_count)
