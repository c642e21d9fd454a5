-- ===== src/Events/Examples.antt =====
-- core/event/server_event.rs: the theorem at an input.
use bevy_mod_replication.Common.{◌≡◌, refl, true, [], ◌∷◌, map, retain}
use bevy_mod_replication.Tick.{RepliconTick}
use bevy_mod_replication.Visibility.{VisibilityPolicy}
use bevy_mod_replication.Clients.{new}
use bevy_mod_replication.Clients.Registry.{ReplicatedClients, IsUnique}
use bevy_mod_replication.Backend.Server.{Bytes, RepliconServer}
use bevy_mod_replication.Events.{SendMode, SerializedMessage, BufferedServerEvent, send_event}
use bevy_mod_replication.Events.Recipients.{
  is_recipient, payload, IsResolved, sent_to, send_event-sent,
}

-- A tick as one byte.
abbrev serialize : RepliconTick → Bytes
serialize tick = tick ∷ []

abbrev replicated : ReplicatedClients
replicated = record {
  clients =
      record (new 1 VisibilityPolicy.all) { update_tick = 5 }
      ∷ record (new 2 VisibilityPolicy.all) { update_tick = 6 }
      ∷ [];
  policy = VisibilityPolicy.all;
  replicate_after_connect = true;
}

replicated-IsUnique : IsUnique replicated.clients
unfolding IsUnique new
replicated-IsUnique = (refl, (refl, tt))

abbrev server : RepliconServer
server = record { running = true; received_messages = []; sent_messages = [] }

abbrev event : BufferedServerEvent
event = record {
  mode = SendMode.broadcast_except 1;
  channel = 3;
  message = SerializedMessage.raw (0 ∷ 9 ∷ []);
}

send_event-sent_example :
    (send_event 1 serialize [] replicated event server).sent_messages
    ≡ map
        (sent_to 1 serialize 3 (payload 1 serialize event.message))
        (retain (λ c. is_recipient event.mode [] c.id) replicated.clients)
send_event-sent_example =
    send_event-sent 1 serialize (λ t. refl) [] replicated event server refl replicated-IsUnique
      (unfold IsResolved in tt)
