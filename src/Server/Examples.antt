-- ===== src/Server/Examples.antt =====
-- The server's handlers at concrete inputs.
use bevy_mod_replication.Common.{ℕ, ◌≡◌, arith, refl, Bool, true, false, List, [], ◌∷◌, Returns, ok}
use bevy_mod_replication.Common.Maps.{contains}
use bevy_mod_replication.Visibility.{VisibilityPolicy}
use bevy_mod_replication.Clients.{ClientBuffers, new as client_new}
use bevy_mod_replication.Clients.Registry.{ReplicatedClients, IsUnique, get_client, find}
use bevy_mod_replication.Backend.Server.{default as default_backend}
use bevy_mod_replication.Wire.Examples.{plain}
use bevy_mod_replication.Server.{Server, ServerEvent, trigger, receive_messages, ack_panic}
use bevy_mod_replication.Server.Handlers.{IsWithout, trigger-IsWithout}
use bevy_mod_replication.Messages.Update.{default as update_default}
use bevy_mod_replication.Server.Collect.{Recipient, EntityData, no_mutations, collect_changes}
use bevy_mod_replication.Server.OneMessage.{Pairs, OneMessage, collect_changes-OneMessage}
use bevy_mod_replication.Server.Acks.{receive_messages_unknown}

abbrev clients : ReplicatedClients
clients = record {
  clients = client_new 3 VisibilityPolicy.all ∷ client_new 4 VisibilityPolicy.blacklist ∷ [];
  policy = VisibilityPolicy.all;
  replicate_after_connect = false;
}

abbrev no_buffers : ClientBuffers
no_buffers = record { clients = []; entities = [] }

abbrev server : Server
server = record {
  server_tick = 7;
  entity_map = (3, (10, 11) ∷ []) ∷ [];
  connected_clients = 3 ∷ 4 ∷ 5 ∷ [];
  replicated_clients = clients;
  client_buffers = no_buffers;
  backend = default_backend;
  buffered_events = [];
}

clients-IsUnique : IsUnique clients.clients
unfolding IsUnique client_new
clients-IsUnique = (refl, (refl, tt))

trigger-IsWithout_example :
    Returns (trigger server (ServerEvent.client_disconnected 3)) (IsWithout 3 4 server)
trigger-IsWithout_example = trigger-IsWithout server 3 4 clients-IsUnique (unfold contains in refl)

abbrev is_later : ℕ → ℕ → ℕ → Bool
is_later a b this_run = false

abbrev to_end : List ℕ → List ℕ
to_end bytes = []

receive_messages_unknown_example :
    receive_messages plain to_end is_later 50 ((5, 0 ∷ []) ∷ []) clients no_buffers ≡ ack_panic
receive_messages_unknown_example =
    receive_messages_unknown plain to_end is_later 50 5 0 (0 ∷ []) [] [] clients no_buffers
      (unfold get_client find client_new in refl) (omega arith) refl

-- An entity with a component that is inserted and one that is changed, for two clients.
abbrev moving : EntityData ℕ
moving = record {
  entity = 4294967296;
  marker_added = false;
  components =
      record { fns_id = 1; value = 5; added = false; changed = λ tick. true }
      ∷ record { fns_id = 2; value = 6; added = true; changed = λ tick. true }
      ∷ [];
}

abbrev seeing : ℕ → Recipient
seeing id = record {
  client = record (client_new id VisibilityPolicy.all) { mutation_ticks = (4294967296, 3) ∷ [] };
  update_message = update_default;
  mutate_message = no_mutations;
}

collect_changes-OneMessage_example :
    (s' : List ℕ) × (rs' : List Recipient) × (collect_changes plain true [] 9
        (moving ∷ [])
        []
        (seeing 3 ∷ seeing 4 ∷ [])
      ≡ ok (s', rs'))
    × Pairs OneMessage (seeing 3 ∷ seeing 4 ∷ []) rs'
collect_changes-OneMessage_example =
    collect_changes-OneMessage plain true [] 9 moving [] (seeing 3 ∷ seeing 4 ∷ [])
