-- ===== src/Backend/Examples.antt =====
-- core/channels.rs, core/replicon_server.rs and core/replicon_client.rs: the theorems at inputs.
use bevy_mod_replication.Common.{refl, true, false}
use bevy_mod_replication.Backend.Server.{default, setup_client_channels, set_running}
use bevy_mod_replication.Backend.Server.Idle.{start, setup, toggled, IsIdle, stopped-IsIdle}

stopped-IsIdle_example :
    IsIdle (set_running (set_running (setup_client_channels default 2) true) false)
stopped-IsIdle_example =
    stopped-IsIdle (set_running (set_running (setup_client_channels default 2) true) false)
      (toggled false (toggled true (setup 2 start))) (unfold set_running in refl)
