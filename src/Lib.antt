-- ===== src/Lib.antt =====
-- renet2: messages over unreliable networks for games, and the netcode protocol beneath them.
--
-- A connection (renet2/src/remote_connection.rs) holds channels. A sending channel cuts its messages
-- into packets; packets are numbered per connection, serialized (renet2/src/packet.rs) and handed to
-- the transport. The other side records each packet's number for acknowledgement and gives its
-- messages and slices to a receiving channel. renetcode2 encrypts what the transport carries and
-- keeps packets from being replayed.
--
-- Files:
--   Base, Base/*: shared names, lists over the native numbers, words of 64 bits, results.
--   Ack, Ack/*: `add_pending_ack` and `acked_largest` of renet2/src/remote_connection.rs.
--   Replay, Replay/*: renetcode2/src/replay_protection.rs, and its use in renetcode2/src/packet.rs.
--   Channel: what the channels share (renet2/src/channel, renet2/src/error.rs).
--   Slice, Slice/*: renet2/src/channel/slice_constructor.rs.
--   Packet, Packet/*: renet2/src/packet.rs. The octets crate is the parameter `Octets`
--   (Packet/Crate); Packet/Quic is a concrete instance of it.
--   Unreliable, Unreliable/*: `SendChannelUnreliable` of renet2/src/channel/unreliable.rs.
--   ReceiveUnreliable, ReceiveUnreliable/*: `ReceiveChannelUnreliable` of the same file.
--   Map: BTreeMap and HashMap of the standard library, as ascending lists.
--   ReceiveReliable, ReceiveReliable/*, SendReliable, SendReliable/*: `ReceiveChannelReliable` and
--   `SendChannelReliable` of renet2/src/channel/reliable.rs.
--   Float: f64, as a parameter. Stats, Stats/*: renet2/src/connection_stats.rs.
--   Connection, Connection/*: `RenetClient` of renet2/src/remote_connection.rs. Config holds
--   `ConnectionConfig`, renet2/src/channel/mod.rs and `from_channels`; Incoming `process_packet`;
--   Outgoing `get_packets_to_send`; Calls the other calls; Info `network_info`; Invariant what holds
--   between two calls; Session sequences of calls.
--   Server, Server/*: `RenetServer` of renet2/src/server.rs; Run has sequences of its calls.
--   Netcode, Netcode/*: renetcode2/src/packet.rs, with the readers of serialize.rs and the calls of
--   the cipher in crypto.rs. The cipher is the parameter `Cipher`.
--   Delivery, Delivery/*: the arms of `RenetClient::process_packet` that reach a reliable channel, and
--   runs of a sending and a receiving channel with a network between them.
-- Files named Runs hold tests and the theorems at concrete inputs.
--
-- Numbers are natural numbers; `add_u64` and `sub_u64` wrap as a release build on a 64-bit target
-- does. A panic is a value of `Result`, and so is that of a clock beyond Duration::MAX (a time is its
-- number of nanoseconds). A buffer or message is the list of its bytes. Loops are
-- recursions on lists or on the rounds left; the one loop without a count, which takes
-- received ids out of a set, has the set's size as its bound, since each round removes one. Logging
-- has no effect on the state and is left out.
--
-- A client whose call fails in a channel is disconnected: the model keeps the channel as it was before
-- that call, since a disconnected client hands out nothing of it. The numbers of a connection that
-- are written as variable-length integers are taken to stay below 2^62, at which the octets crate
-- panics.
--
-- Not modelled: the client, the server and the tokens of renetcode2, and the transports and plugins
-- around the two libraries.
pub mod Base
pub mod Ack
pub mod Replay
pub mod Map
pub mod Channel
pub mod Slice
pub mod Packet
pub mod Unreliable
pub mod ReceiveReliable
pub mod SendReliable
pub mod Float
pub mod Stats
pub mod Connection
pub mod Server
pub mod Netcode
pub mod Delivery
pub mod ReceiveUnreliable
