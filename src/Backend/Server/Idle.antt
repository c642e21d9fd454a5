-- ===== src/Backend/Server/Idle.antt =====
-- core/replicon_server.rs: a stopped server holds no message, a removed client has none, and a
-- channel is a queue.
use bevy_mod_replication.Common.{
  ℕ, ◌≡◌, ◌≢◌, refl, Bool, true, false, not, some, List, [], ◌∷◌, ◌++◌, All, get_elem?, set, retain,
  map, any, ◌==◌, ok, arith, Returns, get_elem?-set_ne, Bool-cases, Option-cases, inl, inr, sym,
  subst, ◌∙◌, zero, suc,
}
use bevy_mod_replication.Backend.Queues.{
  IsEmpty, resize-IsEmpty, clear_all-IsEmpty, set-IsEmpty, get_elem?-range,
}
use bevy_mod_replication.Backend.Server.{
  Bytes, RepliconServer, default, setup_client_channels, remove_client, receive, send, set_running,
  retain_sent, drain_sent, insert_received,
}

-- The states that calls lead to.
pub data IsReachable : RepliconServer → Type 0 where
  start : IsReachable default
  setup : {s : RepliconServer} (n : ℕ) → IsReachable s → IsReachable (setup_client_channels s n)
  leave :
      {s : RepliconServer} (client_id : ℕ) → IsReachable s → IsReachable (remove_client s client_id)
  taken :
      {s : RepliconServer} {r : RepliconServer × List (ℕ × Bytes)} (channel_id : ℕ)
      → IsReachable s
      → receive s channel_id ≡ ok r
      → IsReachable r.0
  sent :
      {s : RepliconServer} (client_id channel_id : ℕ) (message : Bytes)
      → IsReachable s
      → IsReachable (send s client_id channel_id message)
  toggled :
      {s : RepliconServer} (running : Bool) → IsReachable s → IsReachable (set_running s running)
  kept :
      {s : RepliconServer} (f : ℕ × ℕ × Bytes → Bool)
      → IsReachable s
      → IsReachable (retain_sent f s)
  drained : {s : RepliconServer} → IsReachable s → IsReachable (drain_sent s).0
  inserted :
      {s r : RepliconServer} (client_id channel_id : ℕ) (message : Bytes)
      → IsReachable s
      → insert_received s client_id channel_id message ≡ ok r
      → IsReachable r

abbrev pub IsIdle : RepliconServer → Type 0
IsIdle s = All IsEmpty s.received_messages × (s.sent_messages ≡ [])

retain-IsEmpty :
    (p : ℕ × Bytes → Bool) (queues : List (List (ℕ × Bytes)))
    → All IsEmpty queues
    → All IsEmpty (map (retain p) queues)
retain-IsEmpty p [] h = tt
retain-IsEmpty p (q ∷ queues) h = (rw h.0 refl, retain-IsEmpty p queues h.1)

receive-IsIdle :
    (s : RepliconServer) (channel_id : ℕ) (r : RepliconServer × List (ℕ × Bytes))
    → receive s channel_id ≡ ok r
    → (r.0.running ≡ s.running) × (IsIdle s → IsIdle r.0)
unfolding receive
receive-IsIdle s channel_id r e = elim (Option-cases (get_elem? s.received_messages channel_id)) [
  | inl missing ↦ ground arith
  | inr (messages, there) ↦
      let result : (
        record s { received_messages = set s.received_messages channel_id [] },
        messages,
      )
          ≡ r =
        ground arith in
      rw (sym result) (refl, λ idle. (set-IsEmpty s.received_messages channel_id idle.0, idle.1))
]

insert_received-stopped :
    (s : RepliconServer) (client_id channel_id : ℕ) (message : Bytes) (r : RepliconServer)
    → insert_received s client_id channel_id message ≡ ok r
    → (r.running ≡ s.running) × (s.running ≡ false → s ≡ r)
unfolding insert_received
insert_received-stopped s client_id channel_id message r e = ground arith

-- In every state that calls of the interface lead to from the default, a server that is not running
-- holds no message in any queue, received or to be sent.
pub stopped-IsIdle : (s : RepliconServer) → IsReachable s → s.running ≡ false → IsIdle s
unfolding default setup_client_channels remove_client send set_running retain_sent drain_sent
stopped-IsIdle s start h = (tt, refl)
stopped-IsIdle s (setup {s = s₀} n q) h =
    let idle = stopped-IsIdle s₀ q h in (resize-IsEmpty n s₀.received_messages idle.0, idle.1)
stopped-IsIdle s (leave {s = s₀} client_id q) h =
    let idle = stopped-IsIdle s₀ q h in
    (retain-IsEmpty (λ m. not (m.0 == client_id)) s₀.received_messages idle.0, rw idle.1 refl)
stopped-IsIdle s (taken {s = s₀} {r = r} channel_id q e) h =
    let effect = receive-IsIdle s₀ channel_id r e in
    effect.1 (stopped-IsIdle s₀ q (sym effect.0 ∙ h))
stopped-IsIdle s (sent {s = s₀} client_id channel_id message q) h = elim (Bool-cases s₀.running) [
  | inl on ↦ absurd (ground arith)
  | inr off ↦ rw (off, send) (stopped-IsIdle s₀ q off)
]
stopped-IsIdle s (toggled {s = s₀} true q) h = cc
stopped-IsIdle s (toggled {s = s₀} false q) h = (clear_all-IsEmpty s₀.received_messages, refl)
stopped-IsIdle s (kept {s = s₀} f q) h =
    let idle = stopped-IsIdle s₀ q h in (idle.0, rw idle.1 refl)
stopped-IsIdle s (drained {s = s₀} q) h = let idle = stopped-IsIdle s₀ q h in (idle.0, refl)
stopped-IsIdle s (inserted {s = s₀} client_id channel_id message q e) h =
    let effect = insert_received-stopped s₀ client_id channel_id message s e in
    let off = sym effect.0 ∙ h in subst IsIdle (effect.1 off) (stopped-IsIdle s₀ q off)

-- While the server runs, a message that is inserted on a channel of its comes last of what the
-- channel gives next, behind the messages that were waiting there; then the channel is empty, and
-- every other channel is as it was.
pub receive-insert_received :
    (s : RepliconServer) (client_id channel_id : ℕ) (message : Bytes) (waiting : List (ℕ × Bytes))
    → s.running ≡ true
    → get_elem? s.received_messages channel_id ≡ some waiting
    → Returns (insert_received s client_id channel_id message) λ s'.
      Returns (receive s' channel_id) λ r.
        (r.1 ≡ waiting ++ ((client_id, message) ∷ []))
        × (get_elem? r.0.received_messages channel_id ≡ some [])
        × ((i : ℕ)
            → channel_id ≢ i
            → get_elem? r.0.received_messages i ≡ get_elem? s.received_messages i)
        × (r.0.sent_messages ≡ s.sent_messages)
receive-insert_received s client_id channel_id message waiting on there =
    let queue = waiting ++ ((client_id, message) ∷ []) in
    let queues = set s.received_messages channel_id queue in
    let full = get_elem?-range s.received_messages channel_id {q = waiting} {r = queue} there in
    let inserted : insert_received s client_id channel_id message
        ≡ ok (record s { received_messages = queues }) =
      unfold insert_received in ground arith in
    let received : receive (record s { received_messages = queues }) channel_id
        ≡ ok (record s { received_messages = set queues channel_id [] }, queue) =
      unfold receive in rw (full, receive) refl in
    rw inserted (
      rw received (
        refl,
        get_elem?-range queues channel_id {q = queue} {r = []} full,
        λ i ne.
            get_elem?-set_ne queues channel_id i [] ne
            ∙ get_elem?-set_ne s.received_messages channel_id i queue ne,
        refl,
      ))

retain-any : {M : Type 0} (p : M → Bool) (q : List M) → any p (retain (λ m. not (p m)) q) ≡ false
retain-any p [] = refl
retain-any p (m ∷ q) = ground (arith, retain-any p q)

get_elem?-map-retain :
    (p : ℕ × Bytes → Bool) (queues : List (List (ℕ × Bytes))) (i : ℕ) {q : List (ℕ × Bytes)}
    → get_elem? queues i ≡ some q
    → get_elem? (map (retain p) queues) i ≡ some (retain p q)
get_elem?-map-retain p [] i e = cc
get_elem?-map-retain p (r ∷ queues) zero e = cc
get_elem?-map-retain p (r ∷ queues) (suc i) e = get_elem?-map-retain p queues i e

-- After a client is removed no queue holds a message from it or for it: each channel keeps, in
-- order, the messages of the other clients.
pub remove_client-retain :
    (s : RepliconServer) (client_id channel_id : ℕ) (waiting : List (ℕ × Bytes))
    → get_elem? s.received_messages channel_id ≡ some waiting
    → let s' = remove_client s client_id in
      let kept = retain (λ m. not (m.0 == client_id)) waiting in
      (get_elem? s'.received_messages channel_id ≡ some kept)
      × (any (λ m. m.0 == client_id) kept ≡ false)
      × (any (λ m. m.0 == client_id) s'.sent_messages ≡ false)
unfolding remove_client
remove_client-retain s client_id channel_id waiting there = (
  get_elem?-map-retain (λ m. not (m.0 == client_id)) s.received_messages channel_id there,
  retain-any (λ m. m.0 == client_id) waiting,
  retain-any (λ m. m.0 == client_id) s.sent_messages,
)
