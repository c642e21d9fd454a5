-- ===== src/Server/Handlers.antt =====
-- server.rs: a client that disconnects.
use mathlib.Core.Bool.{false≢true}
use bevy_mod_replication.Common.{
  ℕ, ◌≡◌, refl, true, none, List, [], ◌∷◌, ◌==◌, if◌then◌else◌, ok, Returns, Bool-cases, inl, inr,
}
use bevy_mod_replication.Common.Maps.{lookup, contains, lookup-erase}
use bevy_mod_replication.Clients.Registry.{get_client, IsUnique}
use bevy_mod_replication.Clients.Lifecycle.{remove-get_client}
use bevy_mod_replication.Server.{
  Server, ServerEvent, connected_remove, handle_connections, trigger, trigger_all,
}

connected_remove-ok :
    (clients : List ℕ) (client_id : ℕ)
    → contains client_id clients ≡ true
    → (others : List ℕ) × (connected_remove clients client_id ≡ ok others)
unfolding contains connected_remove
connected_remove-ok [] client_id h = elim (false≢true h) [ ]
connected_remove-ok (c ∷ cs) client_id h = elim (Bool-cases (c == client_id)) [
  | inl same ↦ (cs, rw same refl)
  | inr different ↦
      let found : contains client_id cs ≡ true = rw different at h in
      let (others, e) = connected_remove-ok cs client_id found in
      (c ∷ others, rw (different, e) refl)
]

-- What is known of a client after another, or the same, has disconnected.
pub record IsWithout (client_id : ℕ) (j : ℕ) (s s' : Server) : Type 0 where
  pub unique : IsUnique s'.replicated_clients.clients
  pub replicated :
      get_client s'.replicated_clients j
      ≡ (if client_id == j then none else get_client s.replicated_clients j)
  pub mapped : lookup j s'.entity_map ≡ (if client_id == j then none else lookup j s.entity_map)

-- Where the ids of the replicated clients are different, a disconnection of a connected client is
-- handled without a panic and keeps them different; afterwards the client neither replicates nor
-- has mappings, and for every other client both are as they were.
pub trigger-IsWithout :
    (s : Server) (client_id j : ℕ)
    → IsUnique s.replicated_clients.clients
    → contains client_id s.connected_clients ≡ true
    → Returns (trigger s (ServerEvent.client_disconnected client_id)) (IsWithout client_id j s)
unfolding trigger handle_connections trigger_all
trigger-IsWithout s client_id j u h =
    let (others, e) = connected_remove-ok s.connected_clients client_id h in
    let gone = remove-get_client s.replicated_clients s.client_buffers client_id u in
    rw e (record {
      unique = gone.0;
      replicated = gone.1 j;
      mapped = lookup-erase client_id j s.entity_map;
    })
