-- ===== src/Server/Acks.antt =====
-- server.rs: the acknowledgments that the server receives.
use bevy_mod_replication.Common.{
  ℕ, ◌<◌, ◌≡◌, refl, Bool, none, some, List, [], ◌∷◌, length, ◌++◌, arith,
}
use bevy_mod_replication.Backend.Server.{Bytes}
use bevy_mod_replication.Wire.{Wire, value}
use bevy_mod_replication.Clients.{ReplicatedClient, ClientBuffers, ack_mutate_message}
use bevy_mod_replication.Clients.Registry.{ReplicatedClients, get_client, client, find}
use bevy_mod_replication.Server.{
  Acked, acked, ack_panic, update_client, ack, read_acks, receive_messages,
}

abbrev pub ids : List ReplicatedClient → List ℕ
ids [] = []
ids (c ∷ cs) = c.id ∷ ids cs

module _ {Component : Type 0} (w : Wire Component) (after_error : Bytes → Bytes)
    (is_newer_than : ℕ → ℕ → ℕ → Bool) (this_run : ℕ) where
  -- The acknowledgments, each with its sender, one after another: each is of a client that replicates, and
  -- changes that client and the buffers as `ack_mutate_message` does.
  unfoldable pub AreAcked : List (ℕ × ℕ) → ReplicatedClients → ClientBuffers → Acked → Type 0
  AreAcked [] clients buffers r = r ≡ acked clients buffers
  AreAcked ((client_id, mutate_index) ∷ rest) clients buffers r =
      (c : ReplicatedClient) × (find client_id clients.clients ≡ some c)
      × (let x = ack_mutate_message is_newer_than c buffers this_run mutate_index in
          AreAcked rest (record clients { clients = update_client x.0 clients.clients }) x.1 r)

  ack_unknown :
      (client_id i : ℕ) (clients : ReplicatedClients) (buffers : ClientBuffers)
      → get_client clients client_id ≡ none
      → ack w after_error is_newer_than this_run client_id i clients buffers ≡ ack_panic
  unfolding ack client
  ack_unknown client_id i clients buffers h = rw (h, ack) refl

  -- What a client sends, the encodings of its acknowledgments.
  abbrev pub written : List ℕ → Bytes
  written [] = []
  written (i ∷ indices) = w.ack i ++ written indices

  abbrev pub sent_by : ℕ → List ℕ → List (ℕ × ℕ)
  sent_by client_id [] = []
  sent_by client_id (i ∷ indices) = (client_id, i) ∷ sent_by client_id indices

  abbrev pub all_sent : List (ℕ × List ℕ) → List (ℕ × ℕ)
  all_sent [] = []
  all_sent (m ∷ ms) = sent_by m.0 m.1 ++ all_sent ms

  -- A message whose bytes read as an acknowledgment, of a client that does not replicate, such as
  -- one that is connected and waits for replication to be enabled, panics the server.
  pub receive_messages_unknown :
      (client_id i : ℕ) (bytes rest : Bytes) (ms : List (ℕ × Bytes)) (clients : ReplicatedClients)
      (buffers : ClientBuffers)
      → get_client clients client_id ≡ none
      → 0 < length bytes
      → w.read_ack bytes ≡ value i rest
      → receive_messages w after_error is_newer_than this_run
          ((client_id, bytes) ∷ ms)
          clients
          buffers
        ≡ ack_panic
  unfolding receive_messages read_acks
  receive_messages_unknown client_id i [] rest ms clients buffers h l e =
      let no : ⊥ = omega (arith, l) in elim no [ ]
  receive_messages_unknown client_id i (b ∷ bytes) rest ms clients buffers h l e =
      rw (e, ack_unknown client_id i clients buffers h) refl
