-- ===== src/Backend/Server.antt =====
-- core/replicon_server.rs: `RepliconServer`, the server's queues of messages. The log output is left out.
pub mod Idle
use bevy_mod_replication.Common.{
  ℕ, Bool, true, false, not, Option, none, some, List, [], ◌∷◌, ◌++◌, get_elem?, set, retain, map,
  ◌==◌, if◌then◌else◌, Outcome, ok, panic,
}
use bevy_mod_replication.Backend.Queues.{resize, clear_all}

abbrev pub Bytes : Type 0
Bytes = List ℕ

pub record RepliconServer : Type 0 where
  pub running : Bool
  pub received_messages : List (List (ℕ × Bytes))
  pub sent_messages : List (ℕ × ℕ × Bytes)

unfoldable pub default : RepliconServer
default = record { running = false; received_messages = []; sent_messages = [] }

unfoldable pub setup_client_channels : RepliconServer → ℕ → RepliconServer
setup_client_channels s channels_count = record s {
  received_messages = resize channels_count s.received_messages;
}

unfoldable pub remove_client : RepliconServer → ℕ → RepliconServer
remove_client s client_id = record s {
  received_messages = map (retain (λ m. not (m.0 == client_id))) s.received_messages;
  sent_messages = retain (λ m. not (m.0 == client_id)) s.sent_messages;
}

-- `receive` drains the queue also while the server is not running.
unfoldable pub receive : RepliconServer → ℕ → Outcome (RepliconServer × List (ℕ × Bytes))
receive s channel_id = elim (get_elem? s.received_messages channel_id) [
  | none ↦ panic
  | some messages ↦
      ok (record s { received_messages = set s.received_messages channel_id [] }, messages)
]

unfoldable pub send : RepliconServer → ℕ → ℕ → Bytes → RepliconServer
send s client_id channel_id message =
    if not s.running
    then s
    else record s { sent_messages = s.sent_messages ++ ((client_id, channel_id, message) ∷ []) }

unfoldable pub set_running : RepliconServer → Bool → RepliconServer
set_running s running =
    if not running
    then (record {
      running = running;
      received_messages = clear_all s.received_messages;
      sent_messages = [];
    })
    else record s { running = running }

unfoldable pub retain_sent : (ℕ × ℕ × Bytes → Bool) → RepliconServer → RepliconServer
retain_sent f s = record s { sent_messages = retain f s.sent_messages }

unfoldable pub drain_sent : RepliconServer → RepliconServer × List (ℕ × ℕ × Bytes)
drain_sent s = (record s { sent_messages = [] }, s.sent_messages)

unfoldable pub insert_received : RepliconServer → ℕ → ℕ → Bytes → Outcome RepliconServer
insert_received s client_id channel_id message =
    if not s.running then ok s else elim (get_elem? s.received_messages channel_id) [
      | none ↦ panic
      | some messages ↦ ok (record s {
        received_messages =
            set s.received_messages channel_id (messages ++ ((client_id, message) ∷ []));
      })
    ]
