-- ===== src/Connection/Incoming.antt =====
-- `RenetClient::process_packet`.
pub mod Acks
pub mod Arrivals
use renet.Base.{
  ℕ, ◌-◌, Bool, true, false, List, [], ◌∷◌, ◌++◌, Option, none, some, ltb, leb, ◌&&◌, length,
  get_elem?, if◌then◌else◌, Result, ok, err, panic, ◌>>=◌,
}
use renet.Ack.{AckRange, add_pending_ack, acked_largest}
use renet.Channel.{Bytes, Slice, ChannelError}
use renet.Float.{Float}
use renet.Map.{lookup, remove}
use renet.Packet.{
  Octets, Packet, SerializationError, small_reliable, small_unreliable, reliable_slice,
  unreliable_slice, ack, from_bytes, sequence_of,
}
use renet.Connection.{
  RenetClient, SendChannel, ReceiveChannel, PacketSent, PacketSentInfo, untracked,
  reliable_messages, reliable_slice_message, ack_ranges, packet_deserialization,
  received_invalid_channel_id, receive_channel_error, is_disconnected, disconnect_with_reason,
  with_send_channel, with_receive_channel,
}
use renet.ReceiveReliable
use renet.ReceiveReliable.{ReceiveChannelReliable}
use renet.ReceiveUnreliable
use renet.ReceiveUnreliable.{ReceiveChannelUnreliable}
use renet.SendReliable.{SendChannelReliable, process_message_ack, process_slice_message_ack}
use renet.Stats

-- `for (message_id, message) in messages`, up to the first error.
pub process_messages :
    ReceiveChannelReliable → List (ℕ × Bytes) → Result ChannelError ReceiveChannelReliable
process_messages c [] = ok c
process_messages c ((message_id, message) ∷ rest) =
    ReceiveReliable.process_message c message message_id >>= λ d. process_messages d rest

pub process_unreliable_messages : ReceiveChannelUnreliable → List Bytes → ReceiveChannelUnreliable
process_unreliable_messages c [] = c
process_unreliable_messages c (message ∷ rest) =
    process_unreliable_messages (ReceiveUnreliable.process_message c message) rest

-- `sent_packets.range(range)`: it panics where the range ends before it starts.
pub sequences_in : AckRange → List (ℕ × PacketSent) → List ℕ
sequences_in r [] = []
sequences_in r ((sequence, sent) ∷ rest) =
    let others = sequences_in r rest in
    if leb r.start sequence && ltb sequence r.end then sequence ∷ others else others

pub new_acks : List AckRange → List (ℕ × PacketSent) → Result ChannelError (List ℕ)
new_acks [] sent = ok []
new_acks (r ∷ rest) sent =
    if ltb r.end r.start
    then panic
    else (new_acks rest sent >>= λ others. ok (sequences_in r sent ++ others))

pub ack_messages : SendChannelReliable → List ℕ → Result ChannelError SendChannelReliable
ack_messages c [] = ok c
ack_messages c (message_id ∷ rest) = process_message_ack c message_id >>= λ d. ack_messages d rest

module _ {F : Type 0} where
  -- A channel's result is stored; its error disconnects.
  abbrev pub with_reliable_result :
      RenetClient F
      → ℕ
      → Result ChannelError ReceiveChannelReliable
      → Result ChannelError (RenetClient F)
  with_reliable_result c id (ok channel) =
      ok (with_receive_channel c id (ReceiveChannel.reliable channel))
  with_reliable_result c id (err error) =
      ok (disconnect_with_reason c (receive_channel_error id error))
  with_reliable_result c id panic = panic

  abbrev pub with_unreliable_result :
      RenetClient F
      → ℕ
      → Result ChannelError ReceiveChannelUnreliable
      → Result ChannelError (RenetClient F)
  with_unreliable_result c id (ok channel) =
      ok (with_receive_channel c id (ReceiveChannel.unreliable channel))
  with_unreliable_result c id (err error) =
      ok (disconnect_with_reason c (receive_channel_error id error))
  with_unreliable_result c id panic = panic

  -- `let Some(ReceiveChannel::Reliable(channel)) = self.receive_channels.get_mut(channel_id) else`
  abbrev pub on_reliable :
      RenetClient F
      → ℕ
      → (ReceiveChannelReliable → Result ChannelError ReceiveChannelReliable)
      → Result ChannelError (RenetClient F)
  on_reliable c id call = elim (get_elem? c.receive_channels id) [
    | some (ReceiveChannel.reliable channel) ↦ with_reliable_result c id (call channel)
    | _ ↦ ok (disconnect_with_reason c (received_invalid_channel_id id))
  ]

  abbrev pub on_unreliable :
      RenetClient F
      → ℕ
      → (ReceiveChannelUnreliable → Result ChannelError ReceiveChannelUnreliable)
      → Result ChannelError (RenetClient F)
  on_unreliable c id call = elim (get_elem? c.receive_channels id) [
    | some (ReceiveChannel.unreliable channel) ↦ with_unreliable_result c id (call channel)
    | _ ↦ ok (disconnect_with_reason c (received_invalid_channel_id id))
  ]

  -- `self.send_channels.get_mut(channel_id).unwrap()`, which has to be a reliable channel.
  abbrev pub on_sender :
      RenetClient F
      → ℕ
      → (SendChannelReliable → Result ChannelError SendChannelReliable)
      → Result ChannelError (RenetClient F)
  on_sender c id call = elim (get_elem? c.send_channels id) [
    | some (SendChannel.reliable channel) ↦
        call channel >>= λ d. ok (with_send_channel c id (SendChannel.reliable d))
    | _ ↦ panic
  ]

  unfoldable pub process_info : RenetClient F → PacketSentInfo → Result ChannelError (RenetClient F)
  process_info c (reliable_messages id message_ids) =
      on_sender c id (λ d. ack_messages d message_ids)
  process_info c (reliable_slice_message id message_id slice_index) =
      on_sender c id (λ d. process_slice_message_ack d message_id slice_index)
  process_info c (ack_ranges largest_acked_packet) =
      ok (record c { pending_acks = acked_largest largest_acked_packet c.pending_acks })
  process_info c untracked = ok c

  module _ (f : Float F) where
    unfoldable pub update_rtt : F → ℕ → F
    update_rtt old duration =
        let rtt = f.as_secs_f64 duration in
        if f.lt old f.epsilon then rtt else f.add (f.mul old f.old_weight) (f.mul rtt f.new_weight)

    unfoldable pub process_new_ack : RenetClient F → ℕ → Result ChannelError (RenetClient F)
    process_new_ack c sequence = elim (lookup sequence c.sent_packets) [
      | none ↦ panic
      | some sent ↦ Stats.acked_packet c.stats sent.sent_at c.current_time >>= λ stats.
          process_info
            (record c {
              sent_packets = remove sequence c.sent_packets;
              stats = stats;
              rtt = update_rtt c.rtt (c.current_time - sent.sent_at);
            })
            sent.info
    ]

    unfoldable pub process_new_acks : RenetClient F → List ℕ → Result ChannelError (RenetClient F)
    process_new_acks c [] = ok c
    process_new_acks c (sequence ∷ rest) =
        process_new_ack c sequence >>= λ d. process_new_acks d rest

    -- The `match packet` of `process_packet`.
    unfoldable pub process_arm : RenetClient F → Packet → Result ChannelError (RenetClient F)
    process_arm c (small_reliable sequence id messages) =
        on_reliable c id (λ d. process_messages d messages)
    process_arm c (small_unreliable sequence id messages) =
        on_unreliable c id (λ d. ok (process_unreliable_messages d messages))
    process_arm c (reliable_slice sequence id slice) =
        on_reliable c id (λ d. ReceiveReliable.process_slice d slice)
    process_arm c (unreliable_slice sequence id slice) =
        on_unreliable c id (λ d. ReceiveUnreliable.process_slice d slice c.current_time)
    process_arm c (ack sequence ranges) =
        new_acks ranges c.sent_packets >>= λ acks. process_new_acks c acks

    unfoldable pub process_read :
        RenetClient F
        → Result SerializationError (Packet × Bytes)
        → Result ChannelError (RenetClient F)
    process_read c (err error) = ok (disconnect_with_reason c (packet_deserialization error))
    process_read c (ok (packet, rest)) =
        process_arm
          (record c { pending_acks = add_pending_ack (sequence_of packet) c.pending_acks }) packet
    process_read c panic = panic

    unfoldable pub process_packet :
        Octets → RenetClient F → Bytes → Result ChannelError (RenetClient F)
    process_packet o c packet =
        if is_disconnected c
        then ok c
        else process_read (record c { stats = Stats.received_packet c.stats (length packet) })
            (from_bytes o packet)
