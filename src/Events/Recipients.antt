-- ===== src/Events/Recipients.antt =====
-- core/event/server_event.rs: who gets an event, and with which tick.
use bevy_mod_replication.Common.{
  ℕ, zero, suc, ◌≡◌, refl, sym, ◌∙◌, Bool, true, false, not, ◌&&◌, none, some, List, [], ◌∷◌, ◌++◌,
  map, drop, length, retain, append-nil, append_assoc, ◌==◌, if◌then◌else◌, arith, any, Bool-cases,
  Option-cases, inl, inr, ap,
}
use bevy_mod_replication.Common.Maps.{contains}
use bevy_mod_replication.Tick.{RepliconTick}
use bevy_mod_replication.Clients.{ReplicatedClient}
use bevy_mod_replication.Clients.Registry.{ReplicatedClients, get_client, find, IsUnique}
use bevy_mod_replication.Backend.Server.{Bytes, RepliconServer, send as server_send}
use bevy_mod_replication.Events.{
  SendMode, SerializedMessage, BufferedServerEvent, server_id, get_bytes, send, send_each,
  send_event,
}

pub drop-append : (n : ℕ) (xs ys : Bytes) → length xs ≡ n → drop n (xs ++ ys) ≡ ys
drop-append zero [] ys h = refl
drop-append zero (x ∷ xs) ys h = absurd (omega (arith, h))
drop-append (suc n) [] ys h = absurd (omega (arith, h))
drop-append (suc n) (x ∷ xs) ys h = drop-append n xs ys (omega (arith, h))

retain-none : {A : Type 0} (p : A → Bool) (xs : List A) → any p xs ≡ false → retain p xs ≡ []
retain-none p [] h = refl
retain-none p (x ∷ xs) h = ground (arith, retain-none p xs)

retain_ext :
    {A : Type 0} (p q : A → Bool) (xs : List A) → ((x : A) → p x ≡ q x) → retain p xs ≡ retain q xs
retain_ext p q [] h = refl
retain_ext p q (x ∷ xs) h = ground (arith, retain_ext p q xs h, h x)

retain-nobody : {A : Type 0} (xs : List A) → retain (λ x. false) xs ≡ []
retain-nobody [] = refl
retain-nobody (x ∷ xs) = retain-nobody xs

-- Whether a client that replicates is to get an event.
unfoldable pub is_recipient : SendMode → List ℕ → ℕ → Bool
is_recipient SendMode.broadcast excluded id = not (contains id excluded)
is_recipient (SendMode.broadcast_except client_id) excluded id =
    not (contains id excluded) && not (id == client_id)
is_recipient (SendMode.direct client_id) excluded id =
    not (client_id == server_id) && not (contains client_id excluded) && id == client_id

module _ (tick_size : ℕ) (serialize : RepliconTick → Bytes) where
  -- What follows the tick, and a resolved message that starts with its tick.
  unfoldable pub payload : SerializedMessage → Bytes
  payload (SerializedMessage.raw message) = drop tick_size message
  payload (SerializedMessage.resolved tick bytes) = drop tick_size bytes

  unfoldable pub IsResolved : SerializedMessage → Type 0
  IsResolved (SerializedMessage.raw message) = Unit
  IsResolved (SerializedMessage.resolved tick bytes) =
      bytes ≡ serialize tick ++ drop tick_size bytes

  -- What one client is sent.
  abbrev pub sent_to : ℕ → Bytes → ReplicatedClient → ℕ × ℕ × Bytes
  sent_to channel body c = (c.id, channel, serialize c.update_tick ++ body)

  module _ (fixed : (t : RepliconTick) → length (serialize t) ≡ tick_size) where
    drop-serialize : (t : RepliconTick) (ys : Bytes) → drop tick_size (serialize t ++ ys) ≡ ys
    drop-serialize t ys = drop-append tick_size (serialize t) ys (fixed t)

    get_bytes-payload :
        (m : SerializedMessage) (t : RepliconTick)
        → IsResolved m
        → let r = get_bytes tick_size serialize m t in
          (r.1 ≡ serialize t ++ payload m) × (payload r.0 ≡ payload m) × IsResolved r.0
    unfolding get_bytes payload IsResolved
    get_bytes-payload (SerializedMessage.raw message) t h =
        let rest = drop-serialize t (drop tick_size message) in
        (refl, rest, ap (λ (b : Bytes). serialize t ++ b) (sym rest))
    get_bytes-payload (SerializedMessage.resolved tick bytes) t h = elim (Bool-cases (tick == t)) [
      | inl same ↦ let e : tick ≡ t = ground arith in rw (same, get_bytes) (rw (sym e) h, refl, h)
      | inr other ↦ rw (other, get_bytes) (refl, refl, h)
    ]

    pub send-sent :
        (event : BufferedServerEvent) (server : RepliconServer) (c : ReplicatedClient)
        → server.running ≡ true
        → IsResolved event.message
        → let r = send tick_size serialize event server c in
          (r.1.sent_messages
            ≡ server.sent_messages ++ (sent_to event.channel (payload event.message) c ∷ []))
          × (r.1.running ≡ true)
          × IsResolved r.0.message
          × (payload r.0.message ≡ payload event.message)
    unfolding send server_send
    send-sent event server c on h =
        let got = get_bytes-payload event.message c.update_tick h in
        (ground (arith, on, got.0), ground (arith, on), got.2, got.1)

    send_each-sent :
        (skip : ℕ → Bool) (event : BufferedServerEvent) (server : RepliconServer)
        (cs : List ReplicatedClient)
        → server.running ≡ true
        → IsResolved event.message
        → (send_each tick_size serialize skip event server cs).sent_messages
          ≡ server.sent_messages
            ++ map
                (sent_to event.channel (payload event.message))
                (retain (λ c. not (skip c.id)) cs)
    unfolding send_each send
    send_each-sent skip event server [] on h = sym (append-nil server.sent_messages)
    send_each-sent skip event server (c ∷ cs) on h =
        let one = send-sent event server c on h in
        let r = send tick_size serialize event server c in
        let after : (send_each tick_size serialize skip r.0 r.1 cs).sent_messages
            ≡ server.sent_messages
              ++ (sent_to event.channel (payload event.message) c
                  ∷ map (sent_to event.channel (payload event.message))
                      (retain (λ d. not (skip d.id)) cs)) =
          rw (send_each-sent skip r.0 r.1 cs one.1 one.2, one.0, one.3)
            (append_assoc server.sent_messages _ _) in
        elim (Bool-cases (skip c.id)) [
          | inl out ↦ rw out (send_each-sent skip event server cs on h)
          | inr kept ↦ rw kept after
        ]

    find-retain :
        (id : ℕ) (cs : List ReplicatedClient)
        → IsUnique cs
        → retain (λ c. c.id == id) cs ≡ (elim (find id cs) [ none ↦ [] | some c ↦ c ∷ [] ])
    unfolding find IsUnique
    find-retain id [] u = refl
    find-retain id (c ∷ cs) u = elim (Bool-cases (c.id == id)) [
      | inl here ↦
          let e : c.id ≡ id = ground arith in
          let alone : any (λ d. d.id == id) cs ≡ false = rw (sym e) u.0 in
          rw here
            (ap (λ (ds : List ReplicatedClient). c ∷ ds) (retain-none (λ d. d.id == id) cs alone))
      | inr away ↦ rw away (find-retain id cs u.1)
    ]

    send_event_by_mode :
        (excluded : List ℕ) (clients : ReplicatedClients) (mode : SendMode) (channel : ℕ)
        (message : SerializedMessage) (server : RepliconServer)
        → server.running ≡ true
        → IsUnique clients.clients
        → IsResolved message
        → (send_event tick_size serialize excluded clients
            (record { mode = mode; channel = channel; message = message })
            server).sent_messages
          ≡ server.sent_messages
            ++ map
                (sent_to channel (payload message))
                (retain (λ c. is_recipient mode excluded c.id) clients.clients)
    unfolding send_event is_recipient
    send_event_by_mode excluded clients SendMode.broadcast channel message server on u h =
        send_each-sent (λ id. contains id excluded) _ server clients.clients on h
    send_event_by_mode excluded clients (SendMode.broadcast_except client_id) channel message server
          on u h =
        send_each-sent _ _ server clients.clients on h
        ∙ ap
            (λ (cs : List ReplicatedClient).
              server.sent_messages ++ map (sent_to channel (payload message)) cs)
            (retain_ext (λ x. not (if contains x.id excluded then true else x.id == client_id)) _
              clients.clients (λ c. ground arith))
    send_event_by_mode excluded clients (SendMode.direct client_id) channel message server on u h =
        let body = sent_to channel (payload message) in
        let cs = clients.clients in
        let nobody : server.sent_messages
            ≡ server.sent_messages ++ map body (retain (λ c. false) cs) =
          rw (retain-nobody cs) (sym (append-nil server.sent_messages)) in
        elim (Bool-cases (client_id == server_id)) [
          | inl local ↦ rw (local, send_event, is_recipient) nobody
          | inr remote ↦ elim (Bool-cases (contains client_id excluded)) [
            | inl out ↦
                rw (remote, send_event, is_recipient) (rw (out, send_event, is_recipient) nobody)
            | inr kept ↦
                rw (remote, send_event, is_recipient)
                  (rw (kept, find-retain client_id cs u)
                    (elim (Option-cases (find client_id cs)) [
                      | inl gone ↦
                          let absent : get_client clients client_id ≡ none =
                            unfold get_client in gone in
                          rw (absent, gone) (sym (append-nil server.sent_messages))
                      | inr (c, there) ↦
                          let found : get_client clients client_id ≡ some c =
                            unfold get_client in there in
                          rw (found, there) (send-sent _ server c on h).0
                    ]))
          ]
        ]

    -- While the server runs and no two clients have one id, a buffered event is sent to exactly the
    -- replicated clients that its mode names and that its set does not exclude, in their order and
    -- behind the messages that wait already. Each of them gets its own update tick in front of the
    -- event's payload, whether or not the message was resolved for another client before, where a
    -- resolved message starts with its tick and a serialized tick has a fixed length.
    pub send_event-sent :
        (excluded : List ℕ) (clients : ReplicatedClients) (event : BufferedServerEvent)
        (server : RepliconServer)
        → server.running ≡ true
        → IsUnique clients.clients
        → IsResolved event.message
        → (send_event tick_size serialize excluded clients event server).sent_messages
          ≡ server.sent_messages
            ++ map
                (sent_to event.channel (payload event.message))
                (retain (λ c. is_recipient event.mode excluded c.id) clients.clients)
    send_event-sent excluded clients event server on u h =
        send_event_by_mode excluded clients event.mode event.channel event.message server on u h
