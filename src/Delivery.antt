-- ===== src/Delivery.antt =====
-- renet2/src/remote_connection.rs: what one side queues on a reliable channel, and what the other
-- side's ordered channel hands out, over a network that loses, repeats and reorders packets.
pub mod Arrival
pub mod Invariant
pub mod InOrder
mod Runs
use renet.Base.{
  ℕ, ◌+◌, List, [], ◌∷◌, ◌++◌, Bool, true, false, Option, none, some, length, get_elem?, Result, ok,
  err, panic, ◌>>=◌, if◌then◌else◌, leb,
}
use renet.Channel.{Bytes, ChannelError}
use renet.Map.{lookup}
use renet.Packet.{
  Octets, Packet, small_reliable, small_unreliable, reliable_slice, unreliable_slice, ack,
}
use renet.ReceiveReliable
use renet.ReceiveReliable.{ReceiveChannelReliable}
use renet.ReceiveReliable.Order.{with_given}
use renet.SendReliable
use renet.SendReliable.{
  SendChannelReliable, UnackedMessage, small, sliced, send_message, get_packets_to_send,
  process_message_ack, process_slice_message_ack,
}

-- `for (message_id, message) in messages`, up to the first error.
pub process_messages :
    ReceiveChannelReliable → List (ℕ × Bytes) → Result ChannelError ReceiveChannelReliable
process_messages c [] = ok c
process_messages c ((message_id, message) ∷ rest) =
    ReceiveReliable.process_message c message message_id >>= λ d. process_messages d rest

-- The arms of `process_packet` that reach a reliable channel; the others leave it alone.
pub process_packet : ReceiveChannelReliable → Packet → Result ChannelError ReceiveChannelReliable
process_packet c (small_reliable sequence channel_id messages) = process_messages c messages
process_packet c (reliable_slice sequence channel_id slice) = ReceiveReliable.process_slice c slice
process_packet c (small_unreliable sequence channel_id messages) = ok c
process_packet c (unreliable_slice sequence channel_id slice) = ok c
process_packet c (ack sequence ack_ranges) = ok c

-- The two ends, the packets sent so far, the messages queued and those handed out, and the time.
pub record World : Type 0 where
  pub sender : SendChannelReliable
  pub receiver : ReceiveChannelReliable
  pub packet_sequence : ℕ
  pub packets : List Packet
  pub queued : List Bytes
  pub delivered : List Bytes
  pub current_time : ℕ

-- A message is queued; some time passes; packets are made; a packet that was sent arrives; a
-- message or a slice is acknowledged; a message is taken.
pub data Step : Type 0 where
  queues : Bytes → Step
  waits : ℕ → Step
  sends : ℕ → Step
  arrives : ℕ → Step
  acknowledges : ℕ → Step
  acknowledges_slice : ℕ → ℕ → Step
  takes : Step

-- The other side acknowledges only what it was sent: a small message by its id, a slice by an index
-- that the message has. Any other acknowledgement does not occur.
pub acknowledge : SendChannelReliable → ℕ → Result ChannelError SendChannelReliable
acknowledge c message_id = elim (lookup message_id c.unacked_messages) [
  | none ↦ ok c
  | some (small message last_sent) ↦ process_message_ack c message_id
  | some (sliced s) ↦ ok c
]

pub acknowledge_slice : SendChannelReliable → ℕ → ℕ → Result ChannelError SendChannelReliable
acknowledge_slice c message_id slice_index = elim (lookup message_id c.unacked_messages) [
  | none ↦ ok c
  | some (small message last_sent) ↦ ok c
  | some (sliced s) ↦ elim (get_elem? s.acked slice_index) [
    | none ↦ ok c
    | some acked ↦ process_slice_message_ack c message_id slice_index
  ]
]

module _ (o : Octets) where
  pub step : World → Step → Result ChannelError World
  step w (queues message) = send_message w.sender message >>= λ c.
      ok (record w { sender = c; queued = w.queued ++ message ∷ [] })
  step w (waits time) = ok (record w { current_time = w.current_time + time })
  step w (sends available_bytes) =
      get_packets_to_send o w.sender w.packet_sequence available_bytes w.current_time >>= λ sent.
      ok (record w {
        sender = sent.channel;
        packet_sequence = sent.packet_sequence;
        packets = w.packets ++ sent.packets;
      })
  step w (arrives n) = elim (get_elem? w.packets n) [
    | none ↦ ok w
    | some packet ↦ process_packet w.receiver packet >>= λ d. ok (record w { receiver = d })
  ]
  step w (acknowledges message_id) =
      acknowledge w.sender message_id >>= λ c. ok (record w { sender = c })
  step w (acknowledges_slice message_id slice_index) =
      acknowledge_slice w.sender message_id slice_index >>= λ c. ok (record w { sender = c })
  step w takes = ok (record w {
    receiver = (ReceiveReliable.receive_message w.receiver).0;
    delivered = with_given w.delivered (ReceiveReliable.receive_message w.receiver).1;
  })

  pub run : World → List Step → Result ChannelError World
  run w [] = ok w
  run w (s ∷ rest) = step w s >>= λ x. run x rest

pub new : ℕ → ℕ → ℕ → ℕ → World
new channel_id resend_time max_send max_receive = record {
  sender = SendReliable.new channel_id resend_time max_send;
  receiver = ReceiveReliable.new max_receive true;
  packet_sequence = 0;
  packets = [];
  queued = [];
  delivered = [];
  current_time = 0;
}
