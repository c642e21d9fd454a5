-- ===== src/Backend/Client.antt =====
-- core/replicon_client.rs: `RepliconClient`, the client's queues of messages and its connection
-- status. The four statistics are of a type with a zero, the source's `f64`; their setters and
-- getters and the log output are left out.
pub mod Status
use bevy_mod_replication.Common.{
  ℕ, Bool, true, false, not, ◌&&◌, Option, none, some, List, [], ◌∷◌, ◌++◌, length, get_elem?, set,
  if◌then◌else◌, Outcome, ok, panic,
}
use bevy_mod_replication.Backend.Queues.{resize, clear_all}
use bevy_mod_replication.Backend.Server.{Bytes}

pub data RepliconClientStatus : Type 0 where
  disconnected : RepliconClientStatus
  connecting : RepliconClientStatus
  connected : Option ℕ → RepliconClientStatus

pub record RepliconClient (Float : Type 0) : Type 0 where
  pub status : RepliconClientStatus
  pub received_messages : List (List Bytes)
  pub sent_messages : List (ℕ × Bytes)
  pub rtt : Float
  pub packet_loss : Float
  pub sent_bps : Float
  pub received_bps : Float

unfoldable pub is_connected_status : RepliconClientStatus → Bool
is_connected_status (RepliconClientStatus.connected _) = true
is_connected_status _ = false

module _ {Float : Type 0} where
  unfoldable pub is_connected : RepliconClient Float → Bool
  is_connected c = is_connected_status c.status

  unfoldable pub is_disconnected : RepliconClient Float → Bool
  is_disconnected c = elim c.status [ RepliconClientStatus.disconnected ↦ true | _ ↦ false ]

  unfoldable pub is_connecting : RepliconClient Float → Bool
  is_connecting c = elim c.status [ RepliconClientStatus.connecting ↦ true | _ ↦ false ]

  unfoldable pub id : RepliconClient Float → Option ℕ
  id c = elim c.status [ RepliconClientStatus.connected client_id ↦ client_id | _ ↦ none ]

  unfoldable pub setup_server_channels : RepliconClient Float → ℕ → RepliconClient Float
  setup_server_channels c channels_count = record c {
    received_messages = resize channels_count c.received_messages;
  }

  unfoldable pub received_count : RepliconClient Float → ℕ → Outcome ℕ
  received_count c channel_id = elim (get_elem? c.received_messages channel_id) [
    | none ↦ panic
    | some messages ↦ ok (length messages)
  ]

  unfoldable pub receive : RepliconClient Float → ℕ → Outcome (RepliconClient Float × List Bytes)
  receive c channel_id = elim (get_elem? c.received_messages channel_id) [
    | none ↦ panic
    | some messages ↦
        ok (record c { received_messages = set c.received_messages channel_id [] }, messages)
  ]

  unfoldable pub send : RepliconClient Float → ℕ → Bytes → RepliconClient Float
  unfolding is_connected
  send c channel_id message =
      if not (is_connected c)
      then c
      else record c { sent_messages = c.sent_messages ++ ((channel_id, message) ∷ []) }

  unfoldable pub drain_sent : RepliconClient Float → RepliconClient Float × List (ℕ × Bytes)
  drain_sent c = (record c { sent_messages = [] }, c.sent_messages)

  unfoldable pub insert_received : RepliconClient Float → ℕ → Bytes → Outcome (RepliconClient Float)
  insert_received c channel_id message =
      if not (is_connected c) then ok c else elim (get_elem? c.received_messages channel_id) [
        | none ↦ panic
        | some messages ↦ ok (record c {
          received_messages = set c.received_messages channel_id (messages ++ (message ∷ []));
        })
      ]

module _ {Float : Type 0} (float_zero : Float) where
  unfoldable pub default : RepliconClient Float
  default = record {
    status = RepliconClientStatus.disconnected;
    received_messages = [];
    sent_messages = [];
    rtt = float_zero;
    packet_loss = float_zero;
    sent_bps = float_zero;
    received_bps = float_zero;
  }

  unfoldable pub set_status : RepliconClient Float → RepliconClientStatus → RepliconClient Float
  set_status c status =
      if is_connected c && not (is_connected_status status)
      then (record {
        status = status;
        received_messages = clear_all c.received_messages;
        sent_messages = [];
        rtt = float_zero;
        packet_loss = float_zero;
        sent_bps = float_zero;
        received_bps = float_zero;
      })
      else record c { status = status }
