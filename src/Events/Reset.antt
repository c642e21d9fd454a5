-- ===== src/Events/Reset.antt =====
-- core/event/event_registry.rs and client/event.rs: which event is made independent, and what a reset leaves.
use bevy_mod_replication.Common.{
  ℕ, ◌≡◌, ◌≢◌, refl, sym, ◌∙◌, subst, true, false, none, some, List, [], ◌∷◌, any, map, ◌==◌,
  if◌then◌else◌, Outcome, ok, ◌>>=◌, All, Bool-cases, Option-cases, inl, inr,
}
use bevy_mod_replication.Common.Maps.{lookup, insert as map_insert, lookup-insert}
use bevy_mod_replication.Backend.Server.{Bytes}
use bevy_mod_replication.Tick.{RepliconTick}
use bevy_mod_replication.Events.Queue.{Multimap, IsMultimap, ServerEvent, reset_queue}
use bevy_mod_replication.Events.FromClients.{ClientEvent, reset_typed}
use bevy_mod_replication.Events.Registry.{
  EventRegistry, Resources, resource, reset_client_events, reset_queues, reset,
}

-- Every id has a resource.
abbrev pub Has : {V : Type 0} → List ℕ → List (ℕ × V) → Type 0
Has ids resources = All (λ id. lookup id resources ≢ none) ids

-- The ids that are registered.
abbrev pub queue_ids : {E : Type 0} → List (ServerEvent E) → List ℕ
queue_ids events = map (λ event_data. event_data.queue_id) events

abbrev pub events_ids : {E : Type 0} → List (ClientEvent E) → List ℕ
events_ids events = map (λ event_data. event_data.events_id) events

-- The resources of these ids are as asked, and those of other ids are what they were.
abbrev pub Cleared {κ} : {V : Type 0} → (V → Type κ) → List ℕ → List (ℕ × V) → List (ℕ × V) → Type κ
Cleared {V = V} P ids before after =
    (id : ℕ)
    → (any (λ other. other == id) ids ≡ true → (v : V) × (lookup id after ≡ some v) × P v)
      × (any (λ other. other == id) ids ≡ false → lookup id after ≡ lookup id before)

Has-insert :
    {V : Type 0} (ids : List ℕ) (id : ℕ) (v : V) (resources : List (ℕ × V))
    → Has ids resources
    → Has ids (map_insert id v resources)
Has-insert [] id v resources h = tt
Has-insert (one ∷ ids) id v resources h = (
  λ gone.
      let split : (if id == one then some v else lookup one resources) ≡ none =
        sym (lookup-insert id one v resources) ∙ gone in
      elim (Bool-cases (id == one)) [
        | inl same ↦
            let there : some v ≡ none =
              subst (λ b. (if b then some v else lookup one resources) ≡ none) same split in
            cc
        | inr other ↦
            h.0 (subst (λ b. (if b then some v else lookup one resources) ≡ none) other split)
      ],
  Has-insert ids id v resources h.1,
)

-- The loop of both resets.
unfoldable clear_each : {V : Type 0} → (V → V) → List ℕ → List (ℕ × V) → Outcome (List (ℕ × V))
clear_each f [] resources = ok resources
clear_each f (id ∷ ids) resources =
    resource id resources >>= λ found. clear_each f ids (map_insert id (f found) resources)

clear_each-Cleared :
    {V : Type 0} (f : V → V) (P : V → Type 0) (clears : (v : V) → P (f v)) (ids : List ℕ)
    (resources : List (ℕ × V))
    → Has ids resources
    → (after : List (ℕ × V)) × (clear_each f ids resources ≡ ok after)
      × Cleared P ids resources after
unfolding clear_each resource
clear_each-Cleared f P clears [] resources h =
    (resources, refl, λ id. (λ no_id. absurd cc, λ _. refl))
clear_each-Cleared f P clears (one ∷ ids) resources h = elim (Option-cases (lookup one resources)) [
  | inl gone ↦ absurd (h.0 gone)
  | inr (found, there) ↦
      let put = map_insert one (f found) resources in
      let (after, run, cleared) =
        clear_each-Cleared f P clears ids put (Has-insert ids one (f found) resources h.1) in
      (
        after,
        rw (there, run) refl,
        λ id.
            let at_put = lookup-insert one id (f found) resources in
            elim (Bool-cases (one == id)) [
              | inl same ↦
                  let put_same : lookup id put ≡ some (f found) =
                    subst (λ b. lookup id put ≡ (if b then some (f found) else lookup id resources))
                      same at_put in
                  rw same (
                    λ _. elim (Bool-cases (any (λ other. other == id) ids)) [
                      | inl later ↦ (cleared id).0 later
                      | inr alone ↦ (f found, (cleared id).1 alone ∙ put_same, clears found)
                    ],
                    λ no_id. absurd cc,
                  )
              | inr other ↦
                  let put_other : lookup id put ≡ lookup id resources =
                    subst (λ b. lookup id put ≡ (if b then some (f found) else lookup id resources))
                      other at_put in
                  rw other ((cleared id).0, λ gone. (cleared id).1 gone ∙ put_other)
            ],
      )
]

module _ {E Q Cursor : Type 0} where
  reset_queues-clear_each :
      (m : Multimap Q) (events : List (ServerEvent E)) (world : Resources E Q Cursor)
      → reset_queues m events world ≡ (
          clear_each (reset_queue m) (queue_ids events) world.queues >>= λ queues.
          ok (record world { queues = queues }))
  unfolding reset_queues clear_each resource
  reset_queues-clear_each m [] world = refl
  reset_queues-clear_each m (event_data ∷ rest) world =
      elim (Option-cases (lookup event_data.queue_id world.queues)) [
        | inl gone ↦ rw gone refl
        | inr (queue, there) ↦ rw there (
            reset_queues-clear_each m rest (record world {
              queues = map_insert event_data.queue_id (reset_queue m queue) world.queues;
            }))
      ]

  reset_client_events-clear_each :
      (events : List (ClientEvent E)) (world : Resources E Q Cursor)
      → reset_client_events events world ≡ (
          clear_each reset_typed (events_ids events) world.events >>= λ left.
          ok (record world { events = left }))
  unfolding reset_client_events clear_each resource
  reset_client_events-clear_each [] world = refl
  reset_client_events-clear_each (event_data ∷ rest) world =
      elim (Option-cases (lookup event_data.events_id world.events)) [
        | inl gone ↦ rw gone refl
        | inr (events, there) ↦ rw there (
            reset_client_events-clear_each rest (record world {
              events = map_insert event_data.events_id (reset_typed events) world.events;
            }))
      ]

  -- Where the resources of the registered events are there: a reset, which the client makes before a new
  -- connection, does not panic; it leaves the queue of every server event empty and no event of a
  -- client event's type, and changes no other queue and no events of another type.
  pub reset-Cleared :
      (m : Multimap Q) (entries : Q → List (RepliconTick × Bytes))
      → IsMultimap m entries
      → (registry : EventRegistry E) (world : Resources E Q Cursor)
      → Has (queue_ids registry.server) world.queues
      → Has (events_ids registry.client) world.events
      → (after : Resources E Q Cursor) × (reset m registry world ≡ ok after)
        × Cleared (λ q. entries q ≡ []) (queue_ids registry.server) world.queues after.queues
        × Cleared (λ es. es ≡ []) (events_ids registry.client) world.events after.events
  unfolding reset reset_queue reset_typed
  reset-Cleared m entries laws registry world queues events =
      let (left, run, no_events) =
        clear_each-Cleared reset_typed (λ es. es ≡ []) (λ es. refl) (events_ids registry.client)
          world.events events in
      let (emptied, run', no_messages) =
        clear_each-Cleared (reset_queue m) (λ q. entries q ≡ []) laws.clear_nil
          (queue_ids registry.server) world.queues queues in
      (
        record world { events = left; queues = emptied },
        rw
            (
              reset_client_events-clear_each registry.client world,
              run,
              reset_queues-clear_each m registry.server (record world { events = left }),
              run',
            )
            refl,
        no_messages,
        no_events,
      )
