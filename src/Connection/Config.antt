-- ===== src/Connection/Config.antt =====
-- `ConnectionConfig`, `ChannelConfig`, and a client made from them (`new`, `new_from_server`,
-- `from_channels`).
pub mod Fresh
use renet.Base.{
  ℕ, suc, ◌+◌, ◌*◌, Bool, true, false, List, [], ◌∷◌, ◌++◌, Option, none, some, ltb, get_elem?, set,
  replicate, if◌then◌else◌, Result, ok, err, panic, ◌>>=◌,
}
use renet.Channel.{ChannelError}
use renet.Float.{Float}
use renet.Connection.{
  RenetClient, connecting, SendChannel, ReceiveChannel, ChannelOrder, reliable_channel,
  unreliable_channel,
}
use renet.ReceiveReliable
use renet.ReceiveUnreliable
use renet.SendReliable
use renet.Stats
use renet.Unreliable

pub data SendType : Type 0 where
  unreliable : Bool → SendType
  reliable_ordered reliable_unordered : ℕ → SendType

pub record ChannelConfig : Type 0 where
  pub channel_id : ℕ
  pub max_memory_usage_bytes : ℕ
  pub send_type : SendType

pub record ConnectionConfig : Type 0 where
  pub available_bytes_per_tick : ℕ
  pub server_channels_config : List ChannelConfig
  pub client_channels_config : List ChannelConfig

-- `ConnectionConfig::from_channels`
unfoldable pub config_from_channels : List ChannelConfig → List ChannelConfig → ConnectionConfig
config_from_channels server client = record {
  available_bytes_per_tick = 60_000;
  server_channels_config = server;
  client_channels_config = client;
}

unfoldable pub from_shared_channels : List ChannelConfig → ConnectionConfig
from_shared_channels channels = config_from_channels channels channels

-- `DefaultChannel::config`; 300 ms.
abbrev pub default_channels : List ChannelConfig
default_channels =
    record {
      channel_id = 0;
      max_memory_usage_bytes = 5 * 1024 * 1024;
      send_type = unreliable false;
    }
    ∷ record {
      channel_id = 1;
      max_memory_usage_bytes = 5 * 1024 * 1024;
      send_type = reliable_unordered 300_000_000;
    }
    ∷ record {
      channel_id = 2;
      max_memory_usage_bytes = 5 * 1024 * 1024;
      send_type = reliable_ordered 300_000_000;
    }
    ∷ []

-- `ConnectionConfig::test`
unfoldable pub test_config : ConnectionConfig
test_config = from_shared_channels default_channels

unfoldable pub downgrade : SendType → SendType
downgrade (unreliable ordered_reliable_substrate) = unreliable ordered_reliable_substrate
downgrade (reliable_ordered resend_time) = unreliable true
downgrade (reliable_unordered resend_time) = unreliable true

unfoldable pub downgrade_all : List ChannelConfig → List ChannelConfig
downgrade_all [] = []
downgrade_all (c ∷ rest) = record c { send_type = downgrade c.send_type } ∷ downgrade_all rest

unfoldable pub downgrade_to_unreliable : ConnectionConfig → ConnectionConfig
downgrade_to_unreliable c = record c {
  server_channels_config = downgrade_all c.server_channels_config;
  client_channels_config = downgrade_all c.client_channels_config;
}

-- `iter().map(|c| c.channel_id).max().unwrap_or_default()`
unfoldable pub max_channel : List ChannelConfig → ℕ
max_channel [] = 0
max_channel (c ∷ rest) = let m = max_channel rest in if ltb m c.channel_id then c.channel_id else m

unfoldable pub send_channel : ChannelConfig → SendType → SendChannel × ChannelOrder
send_channel c (unreliable ordered_reliable_substrate) = (
  SendChannel.unreliable
      (Unreliable.new c.channel_id c.max_memory_usage_bytes ordered_reliable_substrate),
  unreliable_channel c.channel_id,
)
send_channel c (reliable_ordered resend_time) = (
  SendChannel.reliable (SendReliable.new c.channel_id resend_time c.max_memory_usage_bytes),
  reliable_channel c.channel_id,
)
send_channel c (reliable_unordered resend_time) = (
  SendChannel.reliable (SendReliable.new c.channel_id resend_time c.max_memory_usage_bytes),
  reliable_channel c.channel_id,
)

-- The first loop of `from_channels`; `assert!` that the channel is not yet there.
unfoldable pub add_send_channels :
    List ChannelConfig
    → List SendChannel × List ChannelOrder
    → Result ChannelError (List SendChannel × List ChannelOrder)
add_send_channels [] made = ok made
add_send_channels (c ∷ rest) (channels, order) = elim (get_elem? channels c.channel_id) [
  | some SendChannel.empty ↦ add_send_channels rest (
    set channels c.channel_id (send_channel c c.send_type).0,
    order ++ (send_channel c c.send_type).1 ∷ [],
  )
  | _ ↦ panic
]

unfoldable pub receive_channel : ChannelConfig → SendType → ReceiveChannel
receive_channel c (unreliable ordered_reliable_substrate) =
    ReceiveChannel.unreliable (ReceiveUnreliable.new c.channel_id c.max_memory_usage_bytes)
receive_channel c (reliable_ordered resend_time) =
    ReceiveChannel.reliable (ReceiveReliable.new c.max_memory_usage_bytes true)
receive_channel c (reliable_unordered resend_time) =
    ReceiveChannel.reliable (ReceiveReliable.new c.max_memory_usage_bytes false)

unfoldable pub add_receive_channels :
    List ChannelConfig → List ReceiveChannel → Result ChannelError (List ReceiveChannel)
add_receive_channels [] channels = ok channels
add_receive_channels (c ∷ rest) channels = elim (get_elem? channels c.channel_id) [
  | some ReceiveChannel.empty ↦
      add_receive_channels rest (set channels c.channel_id (receive_channel c c.send_type))
  | _ ↦ panic
]

module _ {F : Type 0} (f : Float F) where
  unfoldable pub from_channels :
      Bool → ℕ → List ChannelConfig → List ChannelConfig → Result ChannelError (RenetClient F)
  from_channels has_reliable_socket available_bytes_per_tick send_config receive_config =
      add_send_channels send_config (replicate (max_channel send_config + 1) SendChannel.empty, [])
      >>= λ send.
          add_receive_channels receive_config
            (replicate (max_channel receive_config + 1) ReceiveChannel.empty)
          >>= λ receive. ok (record {
            has_reliable_socket = has_reliable_socket;
            packet_sequence = 0;
            current_time = 0;
            sent_packets = [];
            pending_acks = [];
            channel_send_order = send.1;
            send_channels = send.0;
            receive_channels = receive;
            stats = Stats.new;
            available_bytes_per_tick = available_bytes_per_tick;
            connection_status = connecting;
            rtt = f.zero;
          })

  -- `RenetClient::new`
  unfoldable pub new : ConnectionConfig → Bool → Result ChannelError (RenetClient F)
  new config has_reliable_socket =
      let c = if has_reliable_socket then downgrade_to_unreliable config else config in
      from_channels has_reliable_socket c.available_bytes_per_tick c.client_channels_config
        c.server_channels_config

  unfoldable pub new_from_server : ConnectionConfig → Bool → Result ChannelError (RenetClient F)
  new_from_server config has_reliable_socket =
      let c = if has_reliable_socket then downgrade_to_unreliable config else config in
      from_channels has_reliable_socket c.available_bytes_per_tick c.server_channels_config
        c.client_channels_config
