-- ===== src/Connection.antt =====
-- renet2/src/remote_connection.rs: `RenetClient`, one side of a connection, with its configuration
-- (renet2/src/channel/mod.rs) and its reasons to disconnect (renet2/src/error.rs). No call has an
-- error value: a channel's error disconnects the client, and the channel keeps no state of it.
pub mod Config
pub mod Info
pub mod Invariant
pub mod Incoming
pub mod Outgoing
pub mod Calls
pub mod Session
mod Runs
use renet.Base.{
  ℕ, ◌+◌, Bool, true, false, List, [], Option, none, some, get_elem?, set, if◌then◌else◌, Result,
  ok, err, panic,
}
use renet.Ack.{AckRange}
use renet.Channel.{Bytes, ChannelError}
use renet.Packet.{SerializationError}
use renet.ReceiveReliable.{ReceiveChannelReliable}
use renet.ReceiveUnreliable.{ReceiveChannelUnreliable}
use renet.SendReliable.{SendChannelReliable}
use renet.Stats.{ConnectionStats}
use renet.Unreliable.{SendChannelUnreliable}

pub data DisconnectReason : Type 0 where
  transport disconnected_by_client disconnected_by_server : DisconnectReason
  packet_serialization packet_deserialization : SerializationError → DisconnectReason
  received_invalid_channel_id : ℕ → DisconnectReason
  send_channel_error receive_channel_error : ℕ → ChannelError → DisconnectReason

pub data RenetConnectionStatus : Type 0 where
  connected connecting : RenetConnectionStatus
  disconnected : DisconnectReason → RenetConnectionStatus

pub data PacketSentInfo : Type 0 where
  untracked : PacketSentInfo
  reliable_messages : ℕ → List ℕ → PacketSentInfo
  reliable_slice_message : ℕ → ℕ → ℕ → PacketSentInfo
  ack_ranges : ℕ → PacketSentInfo

pub record PacketSent : Type 0 where
  pub sent_at : ℕ
  pub info : PacketSentInfo

pub data ChannelOrder : Type 0 where
  reliable_channel unreliable_channel : ℕ → ChannelOrder

pub data SendChannel : Type 0 where
  empty : SendChannel
  unreliable : SendChannelUnreliable → SendChannel
  reliable : SendChannelReliable → SendChannel

pub data ReceiveChannel : Type 0 where
  empty : ReceiveChannel
  unreliable : ReceiveChannelUnreliable → ReceiveChannel
  reliable : ReceiveChannelReliable → ReceiveChannel

-- The parameter is the type of the floating point numbers.
pub record RenetClient (F : Type 0) : Type 0 where
  pub has_reliable_socket : Bool
  pub packet_sequence : ℕ
  pub current_time : ℕ
  pub sent_packets : List (ℕ × PacketSent)
  pub pending_acks : List AckRange
  pub channel_send_order : List ChannelOrder
  pub send_channels : List SendChannel
  pub receive_channels : List ReceiveChannel
  pub stats : ConnectionStats
  pub available_bytes_per_tick : ℕ
  pub connection_status : RenetConnectionStatus
  pub rtt : F

module _ {F : Type 0} where
  abbrev pub is_connected : RenetClient F → Bool
  is_connected c = elim c.connection_status [ connected ↦ true | _ ↦ false ]

  abbrev pub is_connecting : RenetClient F → Bool
  is_connecting c = elim c.connection_status [ connecting ↦ true | _ ↦ false ]

  abbrev pub is_disconnected : RenetClient F → Bool
  is_disconnected c = elim c.connection_status [ disconnected reason ↦ true | _ ↦ false ]

  abbrev pub disconnect_reason : RenetClient F → Option DisconnectReason
  disconnect_reason c = elim c.connection_status [ disconnected reason ↦ some reason | _ ↦ none ]

  unfoldable pub set_connected : RenetClient F → RenetClient F
  set_connected c = if is_disconnected c then c else record c { connection_status = connected }

  unfoldable pub set_connecting : RenetClient F → RenetClient F
  set_connecting c = if is_disconnected c then c else record c { connection_status = connecting }

  unfoldable pub disconnect_with_reason : RenetClient F → DisconnectReason → RenetClient F
  disconnect_with_reason c reason =
      if is_disconnected c then c else record c { connection_status = disconnected reason }

  unfoldable pub disconnect : RenetClient F → RenetClient F
  unfolding disconnect_with_reason
  disconnect c = disconnect_with_reason c disconnected_by_client

  unfoldable pub disconnect_due_to_transport : RenetClient F → RenetClient F
  unfolding disconnect_with_reason
  disconnect_due_to_transport c = disconnect_with_reason c transport

  -- A write to `self.send_channels[id]`, `self.receive_channels[id]`.
  abbrev pub with_send_channel : RenetClient F → ℕ → SendChannel → RenetClient F
  with_send_channel c id channel = record c { send_channels = set c.send_channels id channel }

  abbrev pub with_receive_channel : RenetClient F → ℕ → ReceiveChannel → RenetClient F
  with_receive_channel c id channel = record c {
    receive_channels = set c.receive_channels id channel;
  }
