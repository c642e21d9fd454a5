-- ===== src/Backend/Client/Status.antt =====
-- core/replicon_client.rs: a client that is not connected holds no message.
use bevy_mod_replication.Common.{
  ℕ, ◌≡◌, refl, false, List, [], All, get_elem?, set, ok, arith, Bool-cases, Option-cases, inl, inr,
  sym, subst,
}
use bevy_mod_replication.Backend.Queues.{IsEmpty, resize-IsEmpty, clear_all-IsEmpty, set-IsEmpty}
use bevy_mod_replication.Backend.Server.{Bytes}
use bevy_mod_replication.Backend.Client.{
  RepliconClientStatus, RepliconClient, is_connected_status, is_connected, setup_server_channels,
  receive, send, drain_sent, insert_received, default, set_status,
}

module _ {Float : Type 0} where
  abbrev pub IsIdle : RepliconClient Float → Type 0
  IsIdle c = All IsEmpty c.received_messages × (c.sent_messages ≡ [])

  -- One call of the interface.
  pub data IsStep (float_zero : Float) : RepliconClient Float → RepliconClient Float → Type 0 where
    setup : {c : RepliconClient Float} (n : ℕ) → IsStep float_zero c (setup_server_channels c n)
    taken :
        {c : RepliconClient Float} {r : RepliconClient Float × List Bytes} (channel_id : ℕ)
        → receive c channel_id ≡ ok r
        → IsStep float_zero c r.0
    sent :
        {c : RepliconClient Float} (channel_id : ℕ) (message : Bytes)
        → IsStep float_zero c (send c channel_id message)
    drained : {c : RepliconClient Float} → IsStep float_zero c (drain_sent c).0
    inserted :
        {c d : RepliconClient Float} (channel_id : ℕ) (message : Bytes)
        → insert_received c channel_id message ≡ ok d
        → IsStep float_zero c d
    changed :
        {c : RepliconClient Float} (status : RepliconClientStatus)
        → IsStep float_zero c (set_status float_zero c status)

  receive-IsIdle :
      (c : RepliconClient Float) (channel_id : ℕ) (r : RepliconClient Float × List Bytes)
      → receive c channel_id ≡ ok r
      → (r.0.status ≡ c.status) × (IsIdle c → IsIdle r.0)
  unfolding receive
  receive-IsIdle c channel_id r e = elim (Option-cases (get_elem? c.received_messages channel_id)) [
    | inl missing ↦ ground arith
    | inr (messages, there) ↦
        let result : (
          record c { received_messages = set c.received_messages channel_id [] },
          messages,
        )
            ≡ r =
          ground arith in
        rw (sym result) (refl, λ idle. (set-IsEmpty c.received_messages channel_id idle.0, idle.1))
  ]

  insert_received-stopped :
      (c : RepliconClient Float) (channel_id : ℕ) (message : Bytes) (d : RepliconClient Float)
      → insert_received c channel_id message ≡ ok d
      → (d.status ≡ c.status) × (is_connected c ≡ false → c ≡ d)
  unfolding insert_received
  insert_received-stopped c channel_id message d e = ground arith

  -- Calls one after the other.
  pub data IsRun (float_zero : Float) : RepliconClient Float → Type 0 where
    start : IsRun float_zero (default float_zero)
    next :
        {c d : RepliconClient Float}
        → IsRun float_zero c
        → IsStep float_zero c d
        → IsRun float_zero d

  IsStep-IsIdle :
      (float_zero : Float) (c d : RepliconClient Float)
      → IsStep float_zero c d
      → (is_connected c ≡ false → IsIdle c)
      → is_connected d ≡ false
      → IsIdle d
  IsStep-IsIdle float_zero c d (setup n) idle off =
      let before : IsIdle c = idle (unfold setup_server_channels is_connected in off) in
      unfold setup_server_channels in (resize-IsEmpty n c.received_messages before.0, before.1)
  IsStep-IsIdle float_zero c d (taken {r = r} channel_id e) idle off =
      let effect = receive-IsIdle c channel_id r e in
      effect.1 (idle (unfold is_connected in rw (sym effect.0) off))
  IsStep-IsIdle float_zero c d (sent channel_id message) idle off =
      elim (Bool-cases (is_connected c)) [
        | inl on ↦ absurd (unfold send is_connected in ground arith)
        | inr was ↦ unfold send in rw (was, send) (idle was)
      ]
  IsStep-IsIdle float_zero c d drained idle off =
      let before : IsIdle c = idle (unfold drain_sent is_connected in off) in
      unfold drain_sent in (before.0, refl)
  IsStep-IsIdle float_zero c d (inserted channel_id message e) idle off =
      let effect = insert_received-stopped c channel_id message d e in
      let was : is_connected c ≡ false = unfold is_connected in rw (sym effect.0) off in
      subst IsIdle (effect.1 was) (idle was)
  IsStep-IsIdle float_zero c d (changed status) idle off = elim (Bool-cases (is_connected c)) [
    | inl on ↦
        let stops : is_connected_status status ≡ false =
          unfold set_status is_connected in ground arith in
        unfold set_status in
        rw (on, stops, set_status) (clear_all-IsEmpty c.received_messages, refl)
    | inr was ↦ unfold set_status in rw (was, set_status) (idle was)
  ]

  -- In every state that calls of the interface lead to from the default, a client that is not
  -- connected holds no message, received or to be sent.
  pub IsRun-IsIdle :
      (float_zero : Float) (c : RepliconClient Float)
      → IsRun float_zero c
      → is_connected c ≡ false
      → IsIdle c
  unfolding default
  IsRun-IsIdle float_zero c start off = (tt, refl)
  IsRun-IsIdle float_zero c (next {c = before} run step) off =
      IsStep-IsIdle float_zero before c step (IsRun-IsIdle float_zero before run) off
