-- ===== src/EntityMap/Invariant.antt =====
-- core/server_entity_map.rs: the two maps are inverse to each other.
use bevy_mod_replication.Common.{
  ℕ, ◌≡◌, ◌≢◌, refl, true, none, some, ◌==◌, if◌then◌else◌, ok, panic, Returns, Option-cases, inl,
  inr, arith,
}
use bevy_mod_replication.Common.Maps.{lookup, lookup-insert, lookup-erase}
use bevy_mod_replication.EntityMap.{
  ServerEntityMap, empty, link, insert, get_by_server_or_insert, remove_by_server, remove_by_client,
  to_client, to_server,
}

-- The maps are inverse: each pair of one stands in the other.
unfoldable pub IsInverse : ServerEntityMap → Type 0
IsInverse m =
    ((s c : ℕ) → to_client m s ≡ some c → to_server m c ≡ some s)
    × ((s c : ℕ) → to_server m c ≡ some s → to_client m s ≡ some c)

pub empty-IsInverse : IsInverse empty
unfolding IsInverse empty to_client to_server lookup
empty-IsInverse = (λ s c h. cc, λ s c h. cc)

-- Neither entity is in a pair with a third.
abbrev pub IsFree : ServerEntityMap → ℕ → ℕ → Type 0
IsFree m s c =
    ((d : ℕ) → to_client m s ≡ some d → d ≡ c) × ((t : ℕ) → to_server m c ≡ some t → t ≡ s)

pub link-IsInverse :
    (m : ServerEntityMap) (s c : ℕ) → IsInverse m → IsFree m s c → IsInverse (link m s c)
unfolding IsInverse link to_client to_server
link-IsInverse m s c h free = (
  λ t d e. ground (
    arith,
    e,
    h.0 t d,
    h.0 s d,
    free.0 d,
    free.1 t,
    lookup-insert s t c m.server_to_client,
    lookup-insert c d s m.client_to_server,
  ),
  λ t d e. ground (
    arith,
    e,
    h.1 t d,
    h.1 t c,
    free.0 d,
    free.1 t,
    lookup-insert s t c m.server_to_client,
    lookup-insert c d s m.client_to_server,
  ),
)

insert-eq : (m : ServerEntityMap) (s c : ℕ) → IsFree m s c → insert m s c ≡ ok (link m s c)
unfolding insert to_client
insert-eq m s c free = elim (Option-cases (lookup s m.server_to_client)) [
  | inl vacant ↦ rw (vacant, insert) refl
  | inr (d, taken) ↦
      let same : (c == d) ≡ true = ground (arith, free.0 d taken) in
      rw (taken, insert) (rw same refl)
]

-- Where neither entity is mapped to a third one, `insert` returns (also for a mapping that is there
-- already), maps the pair both ways and every other entity as before, and keeps the maps inverse.
pub insert-IsInverse :
    (m : ServerEntityMap) (s c : ℕ)
    → IsInverse m
    → IsFree m s c
    → Returns (insert m s c) λ m'.
      IsInverse m'
      × ((t : ℕ) → to_client m' t ≡ (if s == t then some c else to_client m t))
      × ((d : ℕ) → to_server m' d ≡ (if c == d then some s else to_server m d))
insert-IsInverse m s c h free = rw (insert-eq m s c free) (
  link-IsInverse m s c h free,
  λ t. unfold link to_client in lookup-insert s t c m.server_to_client,
  λ d. unfold link to_server in lookup-insert c d s m.client_to_server,
)

pub insert-remap :
    (m : ServerEntityMap) (s c d : ℕ) → to_client m s ≡ some d → c ≢ d → insert m s c ≡ panic
unfolding insert to_client
insert-remap m s c d h ne = ground arith

remove_by_server-IsInverse :
    (m : ServerEntityMap) (s : ℕ) → IsInverse m → IsInverse (remove_by_server m s).0
unfolding IsInverse remove_by_server to_client to_server
remove_by_server-IsInverse m s h = elim (Option-cases (lookup s m.server_to_client)) [
  | inl absent ↦
      rw (absent, remove_by_server)
        (
          λ t d e. ground (arith, e, h.0 t d, lookup-erase s t m.server_to_client),
          λ t d e. ground (arith, e, h.1 t d, lookup-erase s t m.server_to_client),
        )
  | inr (c, there) ↦
      rw (there, remove_by_server)
        (
          λ t d e. ground (
            arith,
            e,
            h.0 t d,
            h.0 s c,
            there,
            lookup-erase s t m.server_to_client,
            lookup-erase c d m.client_to_server,
          ),
          λ t d e. ground (
            arith,
            e,
            h.1 t d,
            h.0 s c,
            there,
            lookup-erase s t m.server_to_client,
            lookup-erase c d m.client_to_server,
          ),
        )
]

remove_by_client-IsInverse :
    (m : ServerEntityMap) (c : ℕ) → IsInverse m → IsInverse (remove_by_client m c).0
unfolding IsInverse remove_by_client to_client to_server
remove_by_client-IsInverse m c h = elim (Option-cases (lookup c m.client_to_server)) [
  | inl absent ↦
      rw (absent, remove_by_client)
        (
          λ t d e. ground (arith, e, h.0 t d, lookup-erase c d m.client_to_server),
          λ t d e. ground (arith, e, h.1 t d, lookup-erase c d m.client_to_server),
        )
  | inr (s, there) ↦
      rw (there, remove_by_client)
        (
          λ t d e. ground (
            arith,
            e,
            h.0 t d,
            h.1 s c,
            there,
            lookup-erase s t m.server_to_client,
            lookup-erase c d m.client_to_server,
          ),
          λ t d e. ground (
            arith,
            e,
            h.1 t d,
            h.1 s c,
            there,
            lookup-erase s t m.server_to_client,
            lookup-erase c d m.client_to_server,
          ),
        )
]

remove_by_server-effect :
    (m : ServerEntityMap) (s t : ℕ)
    → ((remove_by_server m s).1 ≡ to_client m s)
      × (to_client (remove_by_server m s).0 t ≡ (if s == t then none else to_client m t))
unfolding remove_by_server to_client
remove_by_server-effect m s t = ground (arith, lookup-erase s t m.server_to_client)

remove_by_client-effect :
    (m : ServerEntityMap) (c d : ℕ)
    → ((remove_by_client m c).1 ≡ to_server m c)
      × (to_server (remove_by_client m c).0 d ≡ (if c == d then none else to_server m d))
unfolding remove_by_client to_server
remove_by_client-effect m c d = ground (arith, lookup-erase c d m.client_to_server)

-- Where the maps are inverse, removing by the server's or by the client's entity returns the
-- partner, unmaps that entity and no other on its side, and leaves the maps inverse, so that the
-- partner is unmapped as well.
pub remove-IsInverse :
    (m : ServerEntityMap) (s c : ℕ)
    → IsInverse m
    → IsInverse (remove_by_server m s).0
      × ((remove_by_server m s).1 ≡ to_client m s)
      × ((t : ℕ) → to_client (remove_by_server m s).0 t ≡ (if s == t then none else to_client m t))
      × IsInverse (remove_by_client m c).0
      × ((remove_by_client m c).1 ≡ to_server m c)
      × ((d : ℕ) → to_server (remove_by_client m c).0 d ≡ (if c == d then none else to_server m d))
remove-IsInverse m s c h = (
  remove_by_server-IsInverse m s h,
  (remove_by_server-effect m s s).0,
  λ t. (remove_by_server-effect m s t).1,
  remove_by_client-IsInverse m c h,
  (remove_by_client-effect m c c).0,
  λ d. (remove_by_client-effect m c d).1,
)

get-vacant :
    (m : ServerEntityMap) (s made : ℕ)
    → to_client m s ≡ none
    → get_by_server_or_insert m s made ≡ (link m s made, made)
unfolding get_by_server_or_insert to_client
get-vacant m s made h = rw (h, get_by_server_or_insert) refl

get-there :
    (m : ServerEntityMap) (s made : ℕ) {c : ℕ}
    → to_client m s ≡ some c
    → get_by_server_or_insert m s made ≡ (m, c)
unfolding get_by_server_or_insert to_client
get-there m s made h = rw (h, get_by_server_or_insert) refl

-- Resolving an entity of the server maps it both ways to the result and keeps the maps inverse,
-- where the entity that would be made for it has no partner yet; resolving it again, whatever the
-- entity that would be made then, gives the same result and changes nothing.
pub get_by_server_or_insert-IsInverse :
    (m : ServerEntityMap) (s made again : ℕ)
    → IsInverse m
    → to_server m made ≡ none
    → let r = get_by_server_or_insert m s made in
      IsInverse r.0
      × (to_client r.0 s ≡ some r.1)
      × (to_server r.0 r.1 ≡ some s)
      × (get_by_server_or_insert r.0 s again ≡ r)
get_by_server_or_insert-IsInverse m s made again h new = elim (Option-cases (to_client m s)) [
  | inl vacant ↦
      let free : IsFree m s made = (λ d e. cc, λ t e. cc) in
      let now : to_client (link m s made) s ≡ some made =
        unfold link to_client in ground (arith, lookup-insert s s made m.server_to_client) in
      rw (get-vacant m s made vacant) (
        link-IsInverse m s made h free,
        now,
        unfold to_server link in ground (arith, lookup-insert made made s m.client_to_server),
        get-there (link m s made) s again now,
      )
  | inr (c, there) ↦
      rw (get-there m s made there)
        (h, there, unfold IsInverse in h.0 s c there, get-there m s again there)
]
