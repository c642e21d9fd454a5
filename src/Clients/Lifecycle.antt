-- ===== src/Clients/Lifecycle.antt =====
-- core/replication/replicated_clients.rs: clients that come and leave.
use bevy_mod_replication.Common.{
  ℕ, ◌≡◌, refl, true, false, ◌||◌, none, some, List, [], ◌∷◌, ◌++◌, any, ◌==◌, if◌then◌else◌, arith,
  Bool-cases, inl, inr, ==_self, ap,
}
use bevy_mod_replication.Visibility.{clear as visibility_clear}
use bevy_mod_replication.Clients.{
  ReplicatedClient, ClientBuffers, new as client_new, reset, drain_entities,
}
use bevy_mod_replication.Clients.Registry.{
  ReplicatedClients, find, get_client, add, take_out, give_back, remove, IsUnique,
}

find-append :
    (j : ℕ) (cs : List ReplicatedClient) (c : ReplicatedClient)
    → find j (cs ++ (c ∷ []))
      ≡ (elim (find j cs) [ none ↦ (if c.id == j then some c else none) | some d ↦ some d ])
unfolding find
find-append j [] c = refl
find-append j (d ∷ ds) c = ground (arith, find-append j ds c)

any-find : (j : ℕ) (cs : List ReplicatedClient) → find j cs ≡ none → any (λ c. c.id == j) cs ≡ false
unfolding find
any-find j [] h = refl
any-find j (c ∷ cs) h = ground (arith, any-find j cs)

find-any : (j : ℕ) (cs : List ReplicatedClient) → any (λ c. c.id == j) cs ≡ false → find j cs ≡ none
unfolding find
find-any j [] h = refl
find-any j (c ∷ cs) h = ground (arith, find-any j cs)

any-append :
    (j : ℕ) (cs : List ReplicatedClient) (c : ReplicatedClient)
    → any (λ d. d.id == j) (cs ++ (c ∷ [])) ≡ (any (λ d. d.id == j) cs || c.id == j)
any-append j [] c = ground arith
any-append j (d ∷ ds) c = ground (arith, any-append j ds c)

append-IsUnique :
    (cs : List ReplicatedClient) (c : ReplicatedClient)
    → IsUnique cs
    → any (λ d. d.id == c.id) cs ≡ false
    → IsUnique (cs ++ (c ∷ []))
unfolding IsUnique
append-IsUnique [] c u h = (refl, tt)
append-IsUnique (d ∷ ds) c u h =
    (ground (arith, any-append d.id ds c, u.0), append-IsUnique ds c u.1 (ground arith))

-- The client that `add` makes, from the pool or new.
unfoldable pub made : ReplicatedClients → ClientBuffers → ℕ → ReplicatedClient
made s b id = elim b.clients [ [] ↦ client_new id s.policy | pooled ∷ _ ↦ reset pooled id ]

made-id : (s : ReplicatedClients) (b : ClientBuffers) (id : ℕ) → (made s b id).id ≡ id
unfolding made client_new reset
made-id s b id = ground arith

add-clients :
    (s : ReplicatedClients) (b : ClientBuffers) (id : ℕ)
    → any (λ c. c.id == id) s.clients ≡ false
    → (add s b id).0.clients ≡ s.clients ++ (made s b id ∷ [])
unfolding add made
add-clients s b id h = rw (h, add) (ground arith)

add-there :
    (s : ReplicatedClients) (b : ClientBuffers) (id : ℕ)
    → any (λ c. c.id == id) s.clients ≡ true
    → add s b id ≡ (s, b)
unfolding add
add-there s b id h = rw (h, add) refl

-- `add` keeps the ids different and every other client as it is; the client that is added is
-- found, as it was where it already replicated, and otherwise as the client made for it.
pub add-get_client :
    (s : ReplicatedClients) (b : ClientBuffers) (id : ℕ)
    → IsUnique s.clients
    → let r = add s b id in
      IsUnique r.0.clients
      × ((j : ℕ)
          → get_client r.0 j ≡ (elim (get_client s j) [
            | some c ↦ some c
            | none ↦ if id == j then some (made s b id) else none
          ]))
unfolding get_client
add-get_client s b id u = elim (Bool-cases (any (λ c. c.id == id) s.clients)) [
  | inl there ↦ rw (add-there s b id there) (u, λ j. ground (arith, any-find j s.clients))
  | inr new ↦ rw (add-clients s b id new) (
    append-IsUnique s.clients (made s b id) u (rw (made-id s b id) new),
    λ j. ground (arith, find-append j s.clients (made s b id), made-id s b id),
  )
]

find-take_out :
    (i : ℕ) (cs : List ReplicatedClient)
    → (elim (take_out i cs) [ none ↦ none | some r ↦ some r.0 ]) ≡ find i cs
unfolding take_out find
find-take_out i [] = refl
find-take_out i (c ∷ cs) = ground (arith, find-take_out i cs)

-- The clients that are left, all of them where none has the id.
abbrev pub left : ℕ → List ReplicatedClient → List ReplicatedClient
left i cs = elim (take_out i cs) [ none ↦ cs | some r ↦ r.1 ]

find-left :
    (i j : ℕ) (cs : List ReplicatedClient)
    → IsUnique cs
    → find j (left i cs) ≡ (if i == j then none else find j cs)
unfolding take_out find IsUnique
find-left i j [] u = ground arith
find-left i j (c ∷ cs) u = ground (arith, find-left i j cs u.1, find-any j cs, u.0)

any-left :
    (i j : ℕ) (cs : List ReplicatedClient)
    → any (λ d. d.id == j) cs ≡ false
    → any (λ d. d.id == j) (left i cs) ≡ false
unfolding take_out
any-left i j [] h = refl
any-left i j (c ∷ cs) h = ground (arith, any-left i j cs)

left-cons :
    (i : ℕ) (c : ReplicatedClient) (cs : List ReplicatedClient)
    → left i (c ∷ cs) ≡ (if c.id == i then cs else c ∷ left i cs)
unfolding take_out
left-cons i c cs = ground arith

left-IsUnique : (i : ℕ) (cs : List ReplicatedClient) → IsUnique cs → IsUnique (left i cs)
unfolding IsUnique
left-IsUnique i [] u = unfold take_out in tt
left-IsUnique i (c ∷ cs) u = elim (Bool-cases (c.id == i)) [
  | inl here ↦ rw (left-cons i c cs, here) u.1
  | inr away ↦ rw (left-cons i c cs, away) (any-left i c.id cs u.0, left-IsUnique i cs u.1)
]

remove-clients :
    (s : ReplicatedClients) (b : ClientBuffers) (i : ℕ)
    → (remove s b i).0.clients ≡ left i s.clients
unfolding remove
remove-clients s b i = ground arith

-- `remove` keeps the ids different, and afterwards exactly the removed client is not found.
pub remove-get_client :
    (s : ReplicatedClients) (b : ClientBuffers) (id : ℕ)
    → IsUnique s.clients
    → let r = remove s b id in
      IsUnique r.0.clients
      × ((j : ℕ) → get_client r.0 j ≡ (if id == j then none else get_client s j))
unfolding get_client
remove-get_client s b id u =
    rw (remove-clients s b id) (left-IsUnique id s.clients u, λ j. find-left id j s.clients u)

remove-made :
    (s : ReplicatedClients) (b : ClientBuffers) (id other : ℕ) (c : ReplicatedClient)
    → get_client s id ≡ some c
    → made (remove s b id).0 (remove s b id).1 other ≡ record {
      id = other;
      mutation_ticks = [];
      visibility = visibility_clear c.visibility;
      update_tick = c.update_tick;
      mutations = [];
      next_mutate_index = 0;
    }
unfolding made remove give_back drain_entities reset get_client
remove-made s b id other c h = ground (arith, find-take_out id s.clients)

-- The update tick of a client that has left is kept for the client that takes its place, though a
-- new client starts at tick 0: after one client is removed and one that does not replicate is
-- added, the latter has the former's update tick, and no mutation tick and no message.
pub add-remove-update_tick :
    (s : ReplicatedClients) (b : ClientBuffers) (id other : ℕ) (c : ReplicatedClient)
    → IsUnique s.clients
    → get_client s id ≡ some c
    → get_client s other ≡ none
    → let r = remove s b id in
      get_client (add r.0 r.1 other).0 other
      ≡ some (record {
        id = other;
        mutation_ticks = [];
        visibility = visibility_clear c.visibility;
        update_tick = c.update_tick;
        mutations = [];
        next_mutate_index = 0;
      })
add-remove-update_tick s b id other c u h k =
    let r = remove s b id in
    let gone = remove-get_client s b id u in
    let absent : get_client r.0 other ≡ none = ground (arith, gone.1 other) in
    let added = add-get_client r.0 r.1 other gone.0 in
    rw (added.1 other) (rw (absent, ==_self other) (ap some (remove-made s b id other c h)))
