-- ===== src/Connection/Outgoing.antt =====
-- `RenetClient::get_packets_to_send`.
pub mod Kept
use renet.Base.{
  ℕ, ◌+◌, Bool, true, false, List, [], ◌∷◌, ◌++◌, Option, none, some, length, get_elem?, take,
  if◌then◌else◌, add_u64, sub_u64, Result, ok, err, panic, ◌>>=◌,
}
use renet.Ack.{AckRange}
use renet.Channel.{Bytes, Slice, ChannelError}
use renet.Map.{insert}
use renet.Packet.{
  Octets, Packet, SerializationError, small_reliable, small_unreliable, reliable_slice,
  unreliable_slice, ack, sequence_of, to_bytes,
}
use renet.Connection.{
  RenetClient, SendChannel, ChannelOrder, reliable_channel, unreliable_channel, PacketSent,
  PacketSentInfo, untracked, reliable_messages, reliable_slice_message, ack_ranges,
  packet_serialization, is_disconnected, disconnect_with_reason, with_send_channel,
}
use renet.SendReliable
use renet.Stats
use renet.Unreliable

-- `messages.iter().map(|(id, _)| *id).collect()`
abbrev pub ids_of : List (ℕ × Bytes) → List ℕ
ids_of [] = []
ids_of ((message_id, message) ∷ rest) = message_id ∷ ids_of rest

-- `ack_ranges.last().unwrap().end - 1`
unfoldable pub largest_of : List AckRange → Result ChannelError ℕ
largest_of [] = panic
largest_of (r ∷ []) = ok (sub_u64 r.end 1)
largest_of (r ∷ n ∷ rest) = largest_of (n ∷ rest)

unfoldable pub info_of : Packet → Result ChannelError PacketSentInfo
info_of (small_reliable sequence id messages) = ok (reliable_messages id (ids_of messages))
info_of (reliable_slice sequence id slice) =
    ok (reliable_slice_message id slice.message_id slice.slice_index)
info_of (small_unreliable sequence id messages) = ok untracked
info_of (unreliable_slice sequence id slice) = ok untracked
info_of (ack sequence ranges) = largest_of ranges >>= λ largest. ok (ack_ranges largest)

-- The loop that fills `sent_packets`.
unfoldable pub record_sent :
    ℕ → List Packet → List (ℕ × PacketSent) → Result ChannelError (List (ℕ × PacketSent))
record_sent sent_at [] sent = ok sent
record_sent sent_at (packet ∷ rest) sent = info_of packet >>= λ info.
    record_sent sent_at rest
      (insert (sequence_of packet) (record { sent_at = sent_at; info = info }) sent)

-- What the loop over the channels has made so far.
pub record Made (F : Type 0) : Type 0 where
  pub client : RenetClient F
  pub packets : List Packet
  pub available_bytes : ℕ

-- A channel's packets are appended, and its state is stored.
abbrev pub add_reliable : {F : Type 0} → Made F → ℕ → SendReliable.Sent → Made F
add_reliable m id sent = record {
  client = record (with_send_channel m.client id (SendChannel.reliable sent.channel)) {
    packet_sequence = sent.packet_sequence;
  };
  packets = m.packets ++ sent.packets;
  available_bytes = sent.available_bytes;
}

abbrev pub add_unreliable : {F : Type 0} → Made F → ℕ → Unreliable.Sent → Made F
add_unreliable m id sent = record {
  client = record (with_send_channel m.client id (SendChannel.unreliable sent.channel)) {
    packet_sequence = sent.packet_sequence;
  };
  packets = m.packets ++ sent.packets;
  available_bytes = sent.available_bytes;
}

-- All packets in turn, each in the same buffer of 1400 bytes; the first error ends the call.
unfoldable pub serialize :
    (o : Octets) → o.Buffer → List Packet → Result SerializationError (List Bytes × ℕ)
serialize o buffer [] = ok ([], 0)
serialize o buffer (packet ∷ rest) = to_bytes o packet buffer >>= λ written.
    serialize o buffer rest >>= λ others.
    ok (take written.1 (o.contents written.0) ∷ others.0, add_u64 written.1 others.1)

module _ {F : Type 0} (o : Octets) where
  unfoldable pub send_channel : Made F → ChannelOrder → Result ChannelError (Made F)
  send_channel m (reliable_channel id) = elim (get_elem? m.client.send_channels id) [
    | some (SendChannel.reliable channel) ↦
        SendReliable.get_packets_to_send o channel m.client.packet_sequence m.available_bytes
          m.client.current_time
        >>= λ sent. ok (add_reliable m id sent)
    | _ ↦ panic
  ]
  send_channel m (unreliable_channel id) = elim (get_elem? m.client.send_channels id) [
    | some (SendChannel.unreliable channel) ↦ ok (
        add_unreliable m id
          (Unreliable.get_packets_to_send o channel m.client.packet_sequence m.available_bytes))
    | _ ↦ panic
  ]

  -- `for order in self.channel_send_order.iter()`
  unfoldable pub send_channels : Made F → List ChannelOrder → Result ChannelError (Made F)
  send_channels m [] = ok m
  send_channels m (order ∷ rest) = send_channel m order >>= λ n. send_channels n rest

  unfoldable pub add_acks : Made F → List AckRange → Made F
  add_acks m [] = m
  add_acks m (r ∷ rest) = record m {
    packets = m.packets ++ ack m.client.packet_sequence (r ∷ rest) ∷ [];
    client = record m.client { packet_sequence = add_u64 m.client.packet_sequence 1 };
  }

  -- A packet that cannot be written disconnects the client, and nothing is sent.
  unfoldable pub hand_over :
      RenetClient F
      → Result SerializationError (List Bytes × ℕ)
      → Result ChannelError (RenetClient F × List Bytes)
  hand_over c (ok (payloads, bytes_sent)) =
      ok (record c { stats = Stats.sent_packets c.stats (length payloads) bytes_sent }, payloads)
  hand_over c (err error) = ok (disconnect_with_reason c (packet_serialization error), [])
  hand_over c panic = panic

  -- The packets of the channels in their order, and the pending acknowledgements.
  unfoldable pub make_packets : RenetClient F → Result ChannelError (Made F)
  make_packets c =
      send_channels
        (record { client = c; packets = []; available_bytes = c.available_bytes_per_tick })
        c.channel_send_order
      >>= λ m. ok (add_acks m m.client.pending_acks)

  unfoldable pub get_packets_to_send :
      o.Buffer → RenetClient F → Result ChannelError (RenetClient F × List Bytes)
  get_packets_to_send buffer c =
      if is_disconnected c
      then ok (c, [])
      else (make_packets c >>= λ m.
          record_sent m.client.current_time m.packets m.client.sent_packets >>= λ sent.
          hand_over (record m.client { sent_packets = sent }) (serialize o buffer m.packets))
