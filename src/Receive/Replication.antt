-- ===== src/Receive/Replication.antt =====
-- client.rs: `apply_replication`, what the client does with all it received in a tick, and `reset`.
use bevy_mod_replication.Common.{
  ℕ, Bool, none, some, List, [], ◌∷◌, ◌++◌, ◌==◌, if◌then◌else◌, ok, panic,
}
use bevy_mod_replication.EntityMap.{clear as clear_map}
use bevy_mod_replication.Backend.Server.{Bytes}
use bevy_mod_replication.Backend.Client.{RepliconClient, receive, received_count, send}
use bevy_mod_replication.Wire.{Wire}
use bevy_mod_replication.Receive.{apply_update_message}
use bevy_mod_replication.Receive.Items.{World, Client, no_stats}
use bevy_mod_replication.Receive.Mutations.{
  BufferedMutate, buffer_mutate_message, apply_mutate_messages,
}
use bevy_mod_replication.Receive.Steps.{Step, done, failed, panicked_at, unfinished, resume}

-- The client with its buffered mutations and its backend.
pub record Session (W Float : Type 0) : Type 0 where
  pub client : Client W
  pub buffered : List BufferedMutate
  pub backend : RepliconClient Float

-- `ReplicationChannel`.
abbrev pub updates_channel : ℕ
updates_channel = 0

abbrev pub mutations_channel : ℕ
mutations_channel = 1

module _ {W Component : Type 0} (w : Wire Component) (e : World W Component) (checks : Bool)
    (partition_point : (BufferedMutate → Bool) → List BufferedMutate → ℕ) where
  -- The update messages, up to the first with an error.
  unfoldable pub apply_updates : List Bytes → Client W → Step (Client W) (Unit {0})
  apply_updates [] t = done t tt []
  apply_updates (message ∷ messages) t =
      resume (apply_update_message w e checks t message) (λ _ t' _. apply_updates messages t')

  -- The acknowledgments of the mutate messages, which are buffered.
  unfoldable pub buffer_all :
      List Bytes → Client W × List BufferedMutate → Step (Client W × List BufferedMutate) Bytes
  buffer_all [] s = done s [] []
  buffer_all (message ∷ messages) s =
      resume (buffer_mutate_message w e checks partition_point message s []) (λ index s' _.
        resume (buffer_all messages s') (λ acks s'' _. done s'' (w.ack index ++ acks) []))

  -- What is buffered and acknowledged, where anything was received.
  unfoldable pub receive_mutations :
      {Float : Type 0} → Session W Float → Step (Session W Float) (Unit {0})
  unfolding buffer_all
  receive_mutations s = elim (received_count s.backend mutations_channel) [
    | panic ↦ panicked_at
    | ok count ↦ if count == 0 then done s tt [] else elim (receive s.backend mutations_channel) [
      | panic ↦ panicked_at
      | ok r ↦ elim (buffer_all r.1 (s.client, s.buffered)) [
        | done t acks _ ↦
            done (record { client = t.0; buffered = t.1; backend = send r.0 updates_channel acks })
              tt []
        | failed t ↦ failed (record { client = t.0; buffered = t.1; backend = r.0 })
        | panicked_at ↦ panicked_at
        | unfinished ↦ unfinished
      ]
    ]
  ]

  -- `failed` where a message has an error, with the rest of its kind dropped.
  unfoldable pub apply_buffered :
      {Float : Type 0} → Session W Float → Step (Session W Float) (Unit {0})
  apply_buffered s =
      elim (apply_mutate_messages w e checks s.client.update_tick s.buffered s.client) [
        | done t kept _ ↦
            let s' : Session W _ = record s { client = t; buffered = kept.0 } in
            if kept.1 then failed s' else done s' tt []
        | failed t ↦ failed (record s { client = t })
        | panicked_at ↦ panicked_at
        | unfinished ↦ unfinished
      ]

  unfoldable pub apply_replication :
      {Float : Type 0} → Session W Float → Step (Session W Float) (Unit {0})
  unfolding apply_updates receive_mutations apply_buffered
  apply_replication s = elim (receive s.backend updates_channel) [
    | panic ↦ panicked_at
    | ok r ↦ elim (apply_updates r.1 s.client) [
      | done t _ _ ↦
          resume (receive_mutations (record s { client = t; backend = r.0 }))
            (λ _ s' _. apply_buffered s')
      | failed t ↦ failed (record s { client = t; backend = r.0 })
      | panicked_at ↦ panicked_at
      | unfinished ↦ unfinished
    ]
  ]

-- `ClientPlugin::reset`.
unfoldable pub reset : {W Float : Type 0} → Session W Float → Session W Float
reset s = record s {
  client = record (s.client) {
    update_tick = 0;
    entity_map = clear_map s.client.entity_map;
    stats = elim s.client.stats [ none ↦ none | some _ ↦ some no_stats ];
  };
  buffered = [];
}
