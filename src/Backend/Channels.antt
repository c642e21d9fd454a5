-- ===== src/Backend/Channels.antt =====
-- core/channels.rs: `RepliconChannels`, the channels of the server and of the client by their ids.
-- A duration is a number.
use bevy_mod_replication.Common.{
  ℕ, zero, suc, ◌-◌, ◌*◌, ◌%◌, ◌<◌, ◌≡◌, refl, false, Option, none, some, List, [], ◌∷◌, ◌++◌,
  length, get_elem?, ◌==◌, if◌then◌else◌, Outcome, ok, panic, Returns, arith, length-append,
}

pub data ChannelKind : Type 0 where
  unreliable unordered ordered : ChannelKind

pub record RepliconChannel : Type 0 where
  pub kind : ChannelKind
  pub resend_time : ℕ
  pub max_bytes : Option ℕ

-- `From<ChannelKind>`.
unfoldable pub from_kind : ChannelKind → RepliconChannel
from_kind kind = record { kind = kind; resend_time = 0; max_bytes = none }

pub data ReplicationChannel : Type 0 where
  updates mutations : ReplicationChannel

unfoldable pub channel_id : ReplicationChannel → ℕ
channel_id ReplicationChannel.updates = 0
channel_id ReplicationChannel.mutations = 1

unfoldable pub from_replication : ReplicationChannel → RepliconChannel
from_replication ReplicationChannel.updates = from_kind ChannelKind.ordered
from_replication ReplicationChannel.mutations = from_kind ChannelKind.unreliable

pub record RepliconChannels : Type 0 where
  pub server : List RepliconChannel
  pub client : List RepliconChannel
  pub default_max_bytes : ℕ

unfoldable pub default : RepliconChannels
default = record {
  server =
      from_replication ReplicationChannel.updates
      ∷ from_replication ReplicationChannel.mutations
      ∷ [];
  client =
      from_replication ReplicationChannel.updates
      ∷ from_replication ReplicationChannel.mutations
      ∷ [];
  default_max_bytes = 5 * 1024 * 1024;
}

-- `self.server.len() as u8 - 1`: the cast keeps 8 bits, and the subtraction panics at 0.
unfoldable pub last_id : List RepliconChannel → Outcome ℕ
last_id channels = let len = length channels % 256 in if len == 0 then panic else ok (len - 1)

unfoldable pub create_server_channel :
    RepliconChannels → RepliconChannel → Outcome (RepliconChannels × ℕ)
unfolding last_id
create_server_channel c channel =
    if length c.server == 255 then panic else elim (last_id (c.server ++ (channel ∷ []))) [
      | panic ↦ panic
      | ok id ↦ ok (record c { server = c.server ++ (channel ∷ []) }, id)
    ]

unfoldable pub create_client_channel :
    RepliconChannels → RepliconChannel → Outcome (RepliconChannels × ℕ)
unfolding last_id
create_client_channel c channel =
    if length c.client == 255 then panic else elim (last_id (c.client ++ (channel ∷ []))) [
      | panic ↦ panic
      | ok id ↦ ok (record c { client = c.client ++ (channel ∷ []) }, id)
    ]

get_elem?-append :
    (channels : List RepliconChannel) (channel : RepliconChannel) (i : ℕ)
    → get_elem? (channels ++ (channel ∷ [])) i
      ≡ (if i == length channels then some channel else get_elem? channels i)
get_elem?-append [] channel zero = refl
get_elem?-append [] channel (suc i) = ground arith
get_elem?-append (c ∷ cs) channel zero = ground arith
get_elem?-append (c ∷ cs) channel (suc i) = ground (arith, get_elem?-append cs channel i)

last_id-append :
    (channels : List RepliconChannel) (channel : RepliconChannel)
    → length channels < 255
    → last_id (channels ++ (channel ∷ [])) ≡ ok (length channels)
unfolding last_id
last_id-append channels channel h = ground (arith, length-append channels (channel ∷ []))

-- With fewer than 255 channels, a new server channel gets the next id, a `u8`; the channel stands
-- under this id, every other id keeps its channel, and the client's channels do not change.
pub create_server_channel-get_elem? :
    (c : RepliconChannels) (channel : RepliconChannel)
    → length c.server < 255
    → Returns (create_server_channel c channel) λ r.
      (r.1 ≡ length c.server)
      × (length r.0.server < 256)
      × ((i : ℕ)
          → get_elem? r.0.server i ≡ (if i == r.1 then some channel else get_elem? c.server i))
      × (r.0.client ≡ c.client)
unfolding create_server_channel
create_server_channel-get_elem? c channel h =
    let room : (length c.server == 255) ≡ false = ground arith in
    rw (room, last_id-append c.server channel h)
      (
        refl,
        omega (arith, length-append c.server (channel ∷ [])),
        λ i. get_elem?-append c.server channel i,
        refl,
      )
