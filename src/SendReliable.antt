-- ===== src/SendReliable.antt =====
-- renet2/src/channel/reliable.rs: `SendChannelReliable`. A `Duration` is its nanoseconds; a
-- subtraction of a later time panics. `octets::varint_len` is taken from the octets parameter.
pub mod Loop
pub mod Memory
pub mod Acks
pub mod Final
pub mod Packets
pub mod History
pub mod Tracked
pub mod Identity
mod Runs
use renet.Base.{
  ℕ, zero, suc, ◌+◌, ◌-◌, ◌%◌, Bool, true, false, List, [], ◌∷◌, ◌++◌, Option, none, some, ltb, leb,
  ◌==◌, if◌then◌else◌, length, get_elem?, set, replicate, add_u64, sub_u64, Result, ok, err, panic,
  ◌>>=◌,
}
use renet.Channel.{Bytes, Slice, slice_size, ChannelError, reliable_channel_max_memory_reached}
use renet.Map.{lookup, insert, remove}
use renet.Packet.{Octets, Packet, small_reliable, reliable_slice}
use renet.Slice.{count_slices, slice_payload}

-- The fields of `UnackedMessage::Sliced`.
pub record SlicedMessage : Type 0 where
  pub message : Bytes
  pub num_slices : ℕ
  pub num_acked_slices : ℕ
  pub next_slice_to_send : ℕ
  pub acked : List Bool
  pub last_sent : List (Option ℕ)

pub data UnackedMessage : Type 0 where
  small : Bytes → Option ℕ → UnackedMessage
  sliced : SlicedMessage → UnackedMessage

pub record SendChannelReliable : Type 0 where
  pub channel_id : ℕ
  pub unacked_messages : List (ℕ × UnackedMessage)
  pub next_reliable_message_id : ℕ
  pub resend_time : ℕ
  pub max_memory_usage_bytes : ℕ
  pub memory_usage_bytes : ℕ

pub new_sliced : Bytes → UnackedMessage
new_sliced payload =
    let num_slices = count_slices payload in
    sliced (record {
      message = payload;
      num_slices = num_slices;
      num_acked_slices = 0;
      next_slice_to_send = 0;
      acked = replicate num_slices false;
      last_sent = replicate num_slices none;
    })

unfoldable pub new : ℕ → ℕ → ℕ → SendChannelReliable
new channel_id resend_time max_memory_usage_bytes = record {
  channel_id = channel_id;
  unacked_messages = [];
  next_reliable_message_id = 0;
  resend_time = resend_time;
  max_memory_usage_bytes = max_memory_usage_bytes;
  memory_usage_bytes = 0;
}

pub available_memory : SendChannelReliable → ℕ
available_memory c = sub_u64 c.max_memory_usage_bytes c.memory_usage_bytes

pub can_send_message : SendChannelReliable → ℕ → Bool
can_send_message c size_bytes =
    leb (add_u64 size_bytes c.memory_usage_bytes) c.max_memory_usage_bytes

unfoldable pub send_message : SendChannelReliable → Bytes → Result ChannelError SendChannelReliable
send_message c message =
    if ltb c.max_memory_usage_bytes (add_u64 c.memory_usage_bytes (length message))
    then err reliable_channel_max_memory_reached
    else ok (record c {
      memory_usage_bytes = add_u64 c.memory_usage_bytes (length message);
      unacked_messages =
          insert c.next_reliable_message_id
            (if ltb slice_size (length message) then new_sliced message else small message none)
            c.unacked_messages;
      next_reliable_message_id = add_u64 c.next_reliable_message_id 1;
    })

pub ack_small : SendChannelReliable → ℕ → UnackedMessage → Result ChannelError SendChannelReliable
ack_small c message_id (small payload last_sent) = ok (record c {
  unacked_messages = remove message_id c.unacked_messages;
  memory_usage_bytes = sub_u64 c.memory_usage_bytes (length payload);
})
ack_small c message_id (sliced s) = panic

pub process_message_ack : SendChannelReliable → ℕ → Result ChannelError SendChannelReliable
process_message_ack c message_id = elim (lookup message_id c.unacked_messages) [
  | none ↦ ok c
  | some unacked ↦ ack_small c message_id unacked
]

-- A message whose slices are all acknowledged is given up.
pub count_ack : SendChannelReliable → ℕ → SlicedMessage → SendChannelReliable
count_ack c message_id s =
    if s.num_acked_slices == s.num_slices
    then record c {
      memory_usage_bytes = sub_u64 c.memory_usage_bytes (length s.message);
      unacked_messages = remove message_id c.unacked_messages;
    }
    else record c { unacked_messages = insert message_id (sliced s) c.unacked_messages }

pub ack_slice :
    SendChannelReliable → ℕ → ℕ → UnackedMessage → Result ChannelError SendChannelReliable
ack_slice c message_id slice_index (small payload last_sent) = panic
ack_slice c message_id slice_index (sliced s) = elim (get_elem? s.acked slice_index) [
  | none ↦ panic
  | some true ↦ ok c
  | some false ↦ ok (
      count_ack c message_id (record s {
        acked = set s.acked slice_index true;
        num_acked_slices = add_u64 s.num_acked_slices 1;
      }))
]

pub process_slice_message_ack :
    SendChannelReliable → ℕ → ℕ → Result ChannelError SendChannelReliable
process_slice_message_ack c message_id slice_index = elim (lookup message_id c.unacked_messages) [
  | none ↦ ok c
  | some unacked ↦ ack_slice c message_id slice_index unacked
]

-- The variables of `get_packets_to_send` and its two `&mut` arguments.
pub record Sending : Type 0 where
  pub packets : List Packet
  pub small_messages : List (ℕ × Bytes)
  pub small_messages_bytes : ℕ
  pub packet_sequence : ℕ
  pub available_bytes : ℕ

-- `current_time - *last_sent < self.resend_time`, for a message that has been sent.
pub sent_recently : ℕ → ℕ → Option ℕ → Result ChannelError Bool
sent_recently resend_time current_time none = ok false
sent_recently resend_time current_time (some last_sent) =
    if ltb current_time last_sent then panic else ok (ltb (current_time - last_sent) resend_time)

-- The small messages collected so far go out in a packet of their own.
pub flush : SendChannelReliable → Sending → Sending
flush c l = record l {
  packets = l.packets ++ small_reliable l.packet_sequence c.channel_id l.small_messages ∷ [];
  small_messages = [];
  small_messages_bytes = 0;
  packet_sequence = add_u64 l.packet_sequence 1;
}

pub collect : ℕ → Bytes → ℕ → Sending → Sending
collect message_id message serialized_size l = record l {
  small_messages = l.small_messages ++ (message_id, message) ∷ [];
  small_messages_bytes = l.small_messages_bytes + serialized_size;
}

-- The loop's body for a slice that is due.
pub push_slice : SendChannelReliable → ℕ → SlicedMessage → ℕ → Sending → Sending
push_slice c message_id s i l =
    let payload = slice_payload s.message s.num_slices i in
    record l {
      packets =
          l.packets
          ++ reliable_slice l.packet_sequence c.channel_id (record {
            message_id = message_id;
            slice_index = i;
            num_slices = s.num_slices;
            payload = payload;
          })
            ∷ [];
      packet_sequence = add_u64 l.packet_sequence 1;
      available_bytes = sub_u64 l.available_bytes (length payload);
    }

-- `i + 1 % *num_slices` is `i + (1 % *num_slices)`.
pub mark_sent : ℕ → ℕ → SlicedMessage → SlicedMessage
mark_sent current_time i s = record s {
  last_sent = set s.last_sent i (some current_time);
  next_slice_to_send = add_u64 i (1 % s.num_slices);
}

pub send_due :
    SendChannelReliable → ℕ → ℕ → ℕ → SlicedMessage → Sending → Bool → Sending × SlicedMessage
send_due c current_time message_id i s l recent =
    if recent then (l, s) else (push_slice c message_id s i l, mark_sent current_time i s)

-- `acked[i]` and `last_sent[i]` panic out of bounds.
pub send_slice :
    SendChannelReliable
    → ℕ
    → ℕ
    → ℕ
    → SlicedMessage
    → Sending
    → Result ChannelError (Sending × SlicedMessage)
send_slice c current_time message_id i s l = elim (get_elem? s.acked i) [
  | none ↦ panic
  | some true ↦ ok (l, s)
  | some false ↦ elim (get_elem? s.last_sent i) [
    | none ↦ panic
    | some last_sent ↦ sent_recently c.resend_time current_time last_sent >>= λ recent.
        ok (send_due c current_time message_id i s l recent)
  ]
]

-- `for i in 0..*num_slices`: the rounds that are left, and the number of the next.
pub send_slices :
    SendChannelReliable
    → ℕ
    → ℕ
    → ℕ
    → ℕ
    → ℕ
    → SlicedMessage
    → Sending
    → Result ChannelError (Sending × SlicedMessage)
send_slices c current_time message_id start_index zero i s l = ok (l, s)
send_slices c current_time message_id start_index (suc left) i s l =
    if ltb l.available_bytes slice_size
    then ok (l, s)
    else (send_slice c current_time message_id ((start_index + i) % s.num_slices) s l >>= λ r.
        send_slices c current_time message_id start_index left (i + 1) r.1 r.0)

module _ (o : Octets) where
  pub send_small : SendChannelReliable → ℕ → Bytes → Sending → Sending
  send_small c message_id message l0 =
      let l = record l0 { available_bytes = sub_u64 l0.available_bytes (length message) } in
      let serialized_size =
        length message + o.varint_len (length message) + o.varint_len message_id in
      if ltb slice_size (l.small_messages_bytes + serialized_size)
      then collect message_id message serialized_size (flush c l)
      else collect message_id message serialized_size l

  -- One round of the loop over the messages: the message as the round leaves it.
  pub send_unacked :
      SendChannelReliable
      → ℕ
      → ℕ
      → UnackedMessage
      → Sending
      → Result ChannelError (Sending × UnackedMessage)
  send_unacked c current_time message_id (small message last_sent) l =
      if ltb l.available_bytes (length message)
      then ok (l, small message last_sent)
      else (sent_recently c.resend_time current_time last_sent >>= λ recent. ok (
          if recent
          then (l, small message last_sent)
          else (send_small c message_id message l, small message (some current_time))))
  send_unacked c current_time message_id (sliced s) l =
      send_slices c current_time message_id s.next_slice_to_send s.num_slices 0 s l >>= λ r.
      ok (r.0, sliced r.1)

  pub send_rounds :
      SendChannelReliable
      → ℕ
      → List (ℕ × UnackedMessage)
      → Sending
      → Result ChannelError (Sending × List (ℕ × UnackedMessage))
  send_rounds c current_time [] l = ok (l, [])
  send_rounds c current_time ((message_id, unacked) ∷ rest) l =
      send_unacked c current_time message_id unacked l >>= λ r.
      send_rounds c current_time rest r.0 >>= λ q. ok (q.0, (message_id, r.1) ∷ q.1)

pub flush_rest : SendChannelReliable → List (ℕ × Bytes) → Sending → Sending
flush_rest c [] l = l
flush_rest c (message ∷ rest) l = flush c l

abbrev pub start : ℕ → ℕ → Sending
start packet_sequence available_bytes = record {
  packets = [];
  small_messages = [];
  small_messages_bytes = 0;
  packet_sequence = packet_sequence;
  available_bytes = available_bytes;
}

pub record Sent : Type 0 where
  pub channel : SendChannelReliable
  pub packets : List Packet
  pub packet_sequence : ℕ
  pub available_bytes : ℕ

pub finish : SendChannelReliable → Sending × List (ℕ × UnackedMessage) → Sent
finish c (l, unacked) =
    let f = flush_rest c l.small_messages l in
    record {
      channel = record c { unacked_messages = unacked };
      packets = f.packets;
      packet_sequence = f.packet_sequence;
      available_bytes = f.available_bytes;
    }

pub get_packets_to_send : Octets → SendChannelReliable → ℕ → ℕ → ℕ → Result ChannelError Sent
get_packets_to_send o c packet_sequence available_bytes current_time =
    send_rounds o c current_time c.unacked_messages (start packet_sequence available_bytes) >>= λ r.
    ok (finish c r)
