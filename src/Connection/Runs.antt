-- ===== src/Connection/Runs.antt =====
-- A client of the test configuration over concrete octets, and the theorems at concrete inputs.
use renet.Base.{ℕ, ◌+◌, ◌≡◌, refl, true, false, List, [], ◌∷◌, ok, arith, inl, ◌<◌, ◌^◌}
use renet.Channel.{Bytes, Returns}
use renet.Float.{numbers}
use renet.Packet.Quic.{quic, Room}
use renet.ReceiveReliable
use renet.ReceiveUnreliable
use renet.SendReliable
use renet.Stats
use renet.Unreliable
use renet.Connection.{
  RenetClient, SendChannel, ReceiveChannel, reliable_channel, unreliable_channel, connecting,
  disconnected, transport,
}
use renet.Connection.Config.{
  test_config, config_from_channels, from_shared_channels, new, new_from_server, from_channels,
  add_send_channels, add_receive_channels, max_channel, send_channel, receive_channel,
}
use renet.Connection.Config.Fresh.{IsConfig, new-IsClient, no_messages}
use renet.Connection.Incoming.{process_packet}
use renet.Connection.Incoming.Arrivals.{AllowedRead, process_packet_survives}
use renet.Connection.Invariant.{IsClient}
use renet.Connection.Session.{Call, call, run}
use renet.Connection.Session.Final.{elapsed, disconnected_is_final}
use renet.Connection.Session.Reachable.{Reachable, made, call-Returns}
use renet.Packet.{from_bytes}

test_config-IsConfig : IsConfig test_config
unfolding test_config from_shared_channels config_from_channels
test_config-IsConfig = record {
  servers = (
    ((λ e. absurd (omega (arith, e))), ((λ e. absurd (omega (arith, e))), tt)),
    (((λ e. absurd (omega (arith, e))), tt), (tt, tt)),
  );
  servers_room = (omega arith, (omega arith, (omega arith, tt)));
  clients = (
    ((λ e. absurd (omega (arith, e))), ((λ e. absurd (omega (arith, e))), tt)),
    (((λ e. absurd (omega (arith, e))), tt), (tt, tt)),
  );
  clients_room = (omega arith, (omega arith, (omega arith, tt)));
}

-- The client of the test configuration.
abbrev client : RenetClient ℕ
client = record {
  has_reliable_socket = false;
  packet_sequence = 0;
  current_time = 0;
  sent_packets = [];
  pending_acks = [];
  channel_send_order = unreliable_channel 0 ∷ reliable_channel 1 ∷ reliable_channel 2 ∷ [];
  send_channels =
      SendChannel.unreliable (Unreliable.new 0 5_242_880 false)
      ∷ SendChannel.reliable (SendReliable.new 1 300_000_000 5_242_880)
      ∷ SendChannel.reliable (SendReliable.new 2 300_000_000 5_242_880)
      ∷ [];
  receive_channels =
      ReceiveChannel.unreliable (ReceiveUnreliable.new 0 5_242_880)
      ∷ ReceiveChannel.reliable (ReceiveReliable.new 5_242_880 false)
      ∷ ReceiveChannel.reliable (ReceiveReliable.new 5_242_880 true)
      ∷ [];
  stats = Stats.new;
  available_bytes_per_tick = 60_000;
  connection_status = connecting;
  rtt = 0;
}

new_client : new numbers test_config false ≡ ok client
unfolding new from_channels test_config from_shared_channels config_from_channels max_channel
    add_send_channels add_receive_channels send_channel receive_channel
new_client = refl

-- The client of the test configuration is in order.
client-IsClient : IsClient no_messages client
client-IsClient = rw new_client at (new-IsClient numbers test_config false test_config-IsConfig).0

new-IsClient_example :
    Returns (IsClient no_messages) (new numbers test_config false)
    × Returns (IsClient no_messages) (new_from_server numbers test_config false)
new-IsClient_example = new-IsClient numbers test_config false test_config-IsConfig

abbrev buffer : Room
buffer = record { written = []; left = 1400 }

-- An acknowledgement of the packets 1 to 3, in bytes.
abbrev acknowledgement : Bytes
acknowledgement = 4 ∷ 0 ∷ 3 ∷ 2 ∷ 0 ∷ []

process_packet_survives_example :
    AllowedRead no_messages
      (from_bytes quic acknowledgement)
      (process_packet numbers quic client acknowledgement)
process_packet_survives_example =
    process_packet_survives no_messages numbers quic client acknowledgement client-IsClient

next : (SendReliable.new 1 300_000_000 5_242_880).next_reliable_message_id + 1 < 2 ^ 64
unfolding SendReliable.new
next = omega arith

call-Returns_example :
    Returns
      (λ y. Reachable numbers quic buffer y.0)
      (call numbers quic buffer client (Call.send_message 1 (7 ∷ [])))
call-Returns_example =
    call-Returns numbers quic buffer client (Call.send_message 1 (7 ∷ []))
      (made test_config false client test_config-IsConfig new_client)
      (inl (SendReliable.new 1 300_000_000 5_242_880, refl, next), omega arith) refl

-- The client once the transport has failed.
abbrev closed : RenetClient ℕ
closed = record client { connection_status = disconnected transport }

closed-IsClient : IsClient no_messages closed
closed-IsClient =
    let v = client-IsClient in
    record {
      senders = v.senders;
      orders = v.orders;
      rising = v.rising;
      sent = v.sent;
      timed = v.timed;
    }

abbrev calls : List Call
calls =
    Call.set_connected
    ∷ Call.send_message 1 (7 ∷ [])
    ∷ Call.update 100
    ∷ Call.process_packet acknowledgement
    ∷ Call.get_packets_to_send
    ∷ []

disconnected_is_final_example :
    Returns
      (λ r. (r.0.connection_status ≡ disconnected transport) × (r.1 ≡ []))
      (run numbers quic buffer closed calls)
disconnected_is_final_example =
    disconnected_is_final no_messages numbers quic buffer transport closed calls closed-IsClient
      refl (unfold elapsed in omega arith)
