-- ===== src/Clients/Registry.antt =====
-- core/replication/replicated_clients.rs: `ReplicatedClients`, the clients that replicate, and the
-- pool of the clients that have left.
use bevy_mod_replication.Common.{
  ℕ, ◌≡◌, Bool, false, Option, none, some, List, [], ◌∷◌, ◌++◌, any, ◌==◌, if◌then◌else◌, Outcome,
  ok, panic,
}
use bevy_mod_replication.Visibility.{VisibilityPolicy}
use bevy_mod_replication.Clients.{
  ReplicatedClient, ClientBuffers, new as client_new, reset, drain_entities,
}

pub record ReplicatedClients : Type 0 where
  pub clients : List ReplicatedClient
  pub policy : VisibilityPolicy
  pub replicate_after_connect : Bool

unfoldable pub new : VisibilityPolicy → Bool → ReplicatedClients
new policy replicate_after_connect = record {
  clients = [];
  policy = policy;
  replicate_after_connect = replicate_after_connect;
}

unfoldable pub find : ℕ → List ReplicatedClient → Option ReplicatedClient
find client_id [] = none
find client_id (c ∷ cs) = if c.id == client_id then some c else find client_id cs

unfoldable pub get_client : ReplicatedClients → ℕ → Option ReplicatedClient
unfolding find
get_client s client_id = find client_id s.clients

-- `client` and `client_mut` panic where the client does not replicate.
unfoldable pub client : ReplicatedClients → ℕ → Outcome ReplicatedClient
unfolding get_client
client s client_id = elim (get_client s client_id) [ none ↦ panic | some c ↦ ok c ]

unfoldable pub add : ReplicatedClients → ClientBuffers → ℕ → ReplicatedClients × ClientBuffers
add s b client_id = if any (λ c. c.id == client_id) s.clients then (s, b) else elim b.clients [
  | pooled ∷ rest ↦ (
    record s { clients = s.clients ++ (reset pooled client_id ∷ []) },
    record b { clients = rest },
  )
  | [] ↦ (record s { clients = s.clients ++ (client_new client_id s.policy ∷ []) }, b)
]

-- `client_buffers.entities.extend(…); client_buffers.clients.push(client)`: the end of a pool is
-- its front here.
unfoldable pub extend : List (List ℕ) → List (List ℕ) → List (List ℕ)
extend [] pool = pool
extend (entities ∷ rest) pool = extend rest (entities ∷ pool)

unfoldable pub give_back : ReplicatedClient → ClientBuffers → ClientBuffers
unfolding extend
give_back c b =
    let r = drain_entities c in
    record { clients = r.1 ∷ b.clients; entities = extend r.0 b.entities }

-- `position` and `Vec::remove`: the first client with the id, and the others.
unfoldable pub take_out :
    ℕ → List ReplicatedClient → Option (ReplicatedClient × List ReplicatedClient)
take_out client_id [] = none
take_out client_id (c ∷ cs) =
    let rest = take_out client_id cs in
    if c.id == client_id
    then some (c, cs)
    else elim rest [ none ↦ none | some r ↦ some (r.0, c ∷ r.1) ]

unfoldable pub remove : ReplicatedClients → ClientBuffers → ℕ → ReplicatedClients × ClientBuffers
unfolding take_out give_back
remove s b client_id = elim (take_out client_id s.clients) [
  | none ↦ (s, b)
  | some r ↦ (record s { clients = r.1 }, give_back r.0 b)
]

unfoldable pub give_back_all : List ReplicatedClient → ClientBuffers → ClientBuffers
unfolding give_back
give_back_all [] b = b
give_back_all (c ∷ cs) b = give_back_all cs (give_back c b)

unfoldable pub clear : ReplicatedClients → ClientBuffers → ReplicatedClients × ClientBuffers
unfolding give_back_all
clear s b = (record s { clients = [] }, give_back_all s.clients b)

-- No two clients with one id.
unfoldable pub IsUnique : List ReplicatedClient → Type 0
IsUnique [] = Unit
IsUnique (c ∷ cs) = (any (λ d. d.id == c.id) cs ≡ false) × IsUnique cs
