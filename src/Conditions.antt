-- ===== src/Conditions.antt =====
-- core/common_conditions.rs: the conditions that the systems run on. A resource is `none` where the
-- world does not have it; a condition with a `Local` gives its answer and the new value of the local.
use bevy_mod_replication.Common.{
  ◌≡◌, refl, Bool, true, false, not, ◌&&◌, Option, none, some, Bool-cases, inl, inr,
}
use bevy_mod_replication.Backend.Server.{RepliconServer}
use bevy_mod_replication.Backend.Client.{
  RepliconClient, is_connected, is_connecting, is_disconnected,
}

-- `Option::is_some_and` and `Option::is_none_or`.
abbrev pub is_some_and : {A : Type 0} → (A → Bool) → Option A → Bool
is_some_and test none = false
is_some_and test (some a) = test a

abbrev pub is_none_or : {A : Type 0} → (A → Bool) → Option A → Bool
is_none_or test none = true
is_none_or test (some a) = test a

unfoldable pub server_running : Option RepliconServer → Bool
server_running server = is_some_and (λ s. s.running) server

unfoldable pub server_just_stopped : Bool → Option RepliconServer → Bool × Bool
server_just_stopped last_running server =
    let running = is_some_and (λ s. s.running) server in (last_running && not running, running)

module _ {Float : Type 0} where
  unfoldable pub server_or_singleplayer : Option (RepliconClient Float) → Bool
  server_or_singleplayer client = is_none_or is_disconnected client

  unfoldable pub client_connecting : Option (RepliconClient Float) → Bool
  client_connecting client = is_some_and is_connecting client

  unfoldable pub client_connected : Option (RepliconClient Float) → Bool
  client_connected client = is_some_and is_connected client

  unfoldable pub client_started_connecting : Bool → Option (RepliconClient Float) → Bool × Bool
  client_started_connecting last_connecting client =
      let connecting = is_some_and is_connecting client in
      (not last_connecting && connecting, connecting)

  unfoldable pub client_just_connected : Bool → Option (RepliconClient Float) → Bool × Bool
  client_just_connected last_connected client =
      let connected = is_some_and is_connected client in
      (not last_connected && connected, connected)

  unfoldable pub client_just_disconnected : Bool → Option (RepliconClient Float) → Bool × Bool
  client_just_disconnected last_not_disconnected client =
      let disconnected = is_some_and is_disconnected client in
      (last_not_disconnected && disconnected, not disconnected)

  -- A condition that has just answered does not answer true at once again, while nothing changes.
  just_connected_once :
      (last : Bool) (client : Option (RepliconClient Float))
      → (client_just_connected (client_just_connected last client).1 client).0 ≡ false
  unfolding client_just_connected
  just_connected_once last client = elim (Bool-cases (is_some_and is_connected client)) [
    | inl connected ↦ rw connected refl
    | inr not_connected ↦ rw not_connected refl
  ]

  just_disconnected_once :
      (last : Bool) (client : Option (RepliconClient Float))
      → (client_just_disconnected (client_just_disconnected last client).1 client).0 ≡ false
  unfolding client_just_disconnected
  just_disconnected_once last client = elim (Bool-cases (is_some_and is_disconnected client)) [
    | inl disconnected ↦ rw disconnected refl
    | inr not_disconnected ↦ rw not_disconnected refl
  ]

  -- A client that was never there and is then disconnected has just disconnected.
  just_disconnected_first :
      (last : Bool) (client : RepliconClient Float)
      → is_disconnected client ≡ true
      → (client_just_disconnected (client_just_disconnected last none).1 (some client)).0 ≡ true
  unfolding client_just_disconnected
  just_disconnected_first last client disconnected = rw disconnected refl
