-- ===== src/Server/Runs.antt =====
-- A server with two connections, and the theorems at concrete inputs.
use renet.Base.{ℕ, add_u64, ◌≡◌, refl, true, false, [], ◌∷◌, some, ok, ◌==◌, if◌then◌else◌}
use renet.Channel.{Returns}
use renet.Float.{numbers}
use renet.Map.{Every, lookup, insert, remove}
use renet.Packet.Quic.{quic, Room}
use renet.ReceiveReliable
use renet.SendReliable
use renet.Stats
use renet.Connection.{
  RenetClient, SendChannel, ReceiveChannel, disconnected_by_server, reliable_channel, connected,
  disconnected, set_connected, disconnect_with_reason,
}
use renet.Connection.Calls as ClientCalls
use renet.Connection.Config.{
  ConnectionConfig, reliable_ordered, new_from_server, from_channels, max_channel,
  add_send_channels, add_receive_channels, send_channel, receive_channel,
}
use renet.Server.{
  RenetServer, client_connected, client_disconnected, new, add_connection, make_connection,
  get_event, disconnect, remove_connection,
}
use renet.Server.Calls.{broadcast_message_except}
use renet.Server.Each.{broadcast_message_except_lem}
use renet.Server.Events.{has, replay}
use renet.Server.Run.{ServerCall, Served, started, called, call}
use renet.Server.Told.{nobody, events_tell_connections}

abbrev config : ConnectionConfig
config = record {
  available_bytes_per_tick = 60_000;
  server_channels_config =
      record {
        channel_id = 0;
        max_memory_usage_bytes = 1000;
        send_type = reliable_ordered 300_000_000;
      }
      ∷ [];
  client_channels_config =
      record {
        channel_id = 0;
        max_memory_usage_bytes = 1000;
        send_type = reliable_ordered 300_000_000;
      }
      ∷ [];
}

abbrev client : RenetClient ℕ
client = record {
  has_reliable_socket = false;
  packet_sequence = 0;
  current_time = 0;
  sent_packets = [];
  pending_acks = [];
  channel_send_order = reliable_channel 0 ∷ [];
  send_channels = SendChannel.reliable (SendReliable.new 0 300_000_000 1000) ∷ [];
  receive_channels = ReceiveChannel.reliable (ReceiveReliable.new 1000 true) ∷ [];
  stats = Stats.new;
  available_bytes_per_tick = 60_000;
  connection_status = connected;
  rtt = 0;
}

abbrev empty_server : RenetServer ℕ
empty_server = new config

abbrev one_client : RenetServer ℕ
one_client = record {
  connections = (7, client) ∷ [];
  connection_config = config;
  events = client_connected 7 ∷ [];
}

abbrev heard : RenetServer ℕ
heard = record one_client { events = [] }

abbrev kicked : RenetServer ℕ
kicked = record {
  connections = (7, record client { connection_status = disconnected disconnected_by_server }) ∷ [];
  connection_config = config;
  events = [];
}

abbrev gone : RenetServer ℕ
gone = record {
  connections = [];
  connection_config = config;
  events = client_disconnected 7 disconnected_by_server ∷ [];
}

abbrev buffer : Room
buffer = record { written = []; left = 1400 }

-- A client comes and its event is taken; the server disconnects it, and its connection is removed.
gone-Served : Served numbers quic buffer gone (client_connected 7 ∷ [])
unfolding call add_connection make_connection get_event disconnect remove_connection lookup insert
    remove set_connected disconnect_with_reason new_from_server from_channels max_channel
    add_send_channels add_receive_channels send_channel receive_channel
gone-Served =
    called kicked gone (ServerCall.remove_connection 7) (client_connected 7 ∷ []) []
      (called heard kicked (ServerCall.disconnect 7) (client_connected 7 ∷ []) []
        (called one_client heard ServerCall.get_event [] (client_connected 7 ∷ [])
          (called empty_server one_client (ServerCall.add_connection 7 false) [] []
            (started empty_server refl refl) refl)
          refl)
        refl)
      refl

events_tell_connections_example :
    replay nobody (client_connected 7 ∷ client_disconnected 7 disconnected_by_server ∷ []) 7
    ≡ has gone 7
events_tell_connections_example =
    events_tell_connections numbers quic buffer gone (client_connected 7 ∷ []) 7 gone-Served

abbrev two_clients : RenetServer ℕ
two_clients = record {
  connections = (3, client) ∷ (7, client) ∷ [];
  connection_config = config;
  events = [];
}

both :
    Every
      (λ id c. Returns (λ d. Unit {0}) (ClientCalls.send_message c 0 (9 ∷ [])))
      two_clients.connections
unfolding ClientCalls.send_message SendReliable.send_message SendReliable.new add_u64
both = (tt, (tt, tt))

found : lookup 7 two_clients.connections ≡ some client
unfolding lookup
found = refl

broadcast_message_except_lem_example :
    Returns
      (λ t.
        (d : RenetClient ℕ) × (lookup 7 t.connections ≡ some d)
        × ((if 3 == 7 then ok client else ClientCalls.send_message client 0 (9 ∷ [])) ≡ ok d))
      (broadcast_message_except two_clients 3 0 (9 ∷ []))
broadcast_message_except_lem_example =
    broadcast_message_except_lem two_clients 3 0 (9 ∷ []) 7 client both found
