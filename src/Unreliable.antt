-- ===== src/Unreliable.antt =====
-- renet2/src/channel/unreliable.rs: `SendChannelUnreliable`. `octets::varint_len` is taken from the
-- octets parameter; message lengths are below 2 ^ 62.
pub mod Memory
pub mod Budget
pub mod Sequence
pub mod Untracked
pub mod Contents
pub mod Substrate
mod Runs
use renet.Base.{
  ℕ, zero, suc, ◌+◌, ◌≤◌, Bool, true, false, ◌||◌, List, [], ◌∷◌, ◌++◌, ltb, leb, if◌then◌else◌,
  length, add_u64, sub_u64,
}
use renet.Channel.{Bytes, Slice, slice_size}
use renet.Packet.{Octets, Packet, small_unreliable, unreliable_slice}
use renet.Slice.{count_slices, slice_payload}

pub record SendChannelUnreliable : Type 0 where
  pub channel_id : ℕ
  pub unreliable_messages : List Bytes
  pub sliced_message_id : ℕ
  pub max_memory_usage_bytes : ℕ
  pub memory_usage_bytes : ℕ
  pub ordered_reliable_substrate : Bool

unfoldable pub new : ℕ → ℕ → Bool → SendChannelUnreliable
new channel_id max_memory_usage_bytes ordered_reliable_substrate = record {
  channel_id = channel_id;
  unreliable_messages = [];
  sliced_message_id = 0;
  max_memory_usage_bytes = max_memory_usage_bytes;
  memory_usage_bytes = 0;
  ordered_reliable_substrate = ordered_reliable_substrate;
}

pub can_send_message : SendChannelUnreliable → ℕ → Bool
can_send_message c size_bytes =
    leb (add_u64 size_bytes c.memory_usage_bytes) c.max_memory_usage_bytes

pub available_memory : SendChannelUnreliable → ℕ
available_memory c = sub_u64 c.max_memory_usage_bytes c.memory_usage_bytes

-- A message that finds no memory is dropped.
pub send_message : SendChannelUnreliable → Bytes → SendChannelUnreliable
send_message c message =
    if ltb c.max_memory_usage_bytes (add_u64 c.memory_usage_bytes (length message))
    then c
    else record c {
      unreliable_messages = c.unreliable_messages ++ message ∷ [];
      memory_usage_bytes = add_u64 c.memory_usage_bytes (length message);
    }

-- The variables of `get_packets_to_send`, its two `&mut` arguments and the fields that it changes.
pub record Sending : Type 0 where
  pub packets : List Packet
  pub small_messages : List Bytes
  pub small_messages_bytes : ℕ
  pub overflow_messages : List Bytes
  pub overflow_trigger : Bool
  pub memory_usage_bytes : ℕ
  pub sliced_message_id : ℕ
  pub packet_sequence : ℕ
  pub available_bytes : ℕ

-- `for slice_index in 0..num_slices`: the rounds that are left, and the index of the next.
pub slice_packets : ℕ → ℕ → Bytes → ℕ → ℕ → ℕ → ℕ → List Packet
slice_packets channel_id message_id message num_slices sequence zero slice_index = []
slice_packets channel_id message_id message num_slices sequence (suc left) slice_index =
    unreliable_slice sequence channel_id (record {
      message_id = message_id;
      slice_index = slice_index;
      num_slices = num_slices;
      payload = slice_payload message num_slices slice_index;
    })
    ∷ slice_packets channel_id message_id message num_slices (add_u64 sequence 1) left
        (slice_index + 1)

pub count_up : ℕ → ℕ → ℕ
count_up sequence zero = sequence
count_up sequence (suc left) = count_up (add_u64 sequence 1) left

pub send_sliced : SendChannelUnreliable → Bytes → Sending → Sending
send_sliced c message l =
    let num_slices = count_slices message in
    record l {
      packets =
          l.packets
          ++ slice_packets c.channel_id l.sliced_message_id message num_slices l.packet_sequence
              num_slices 0;
      packet_sequence = count_up l.packet_sequence num_slices;
      sliced_message_id = add_u64 l.sliced_message_id 1;
    }

-- The small messages collected so far go out in a packet of their own.
pub flush : SendChannelUnreliable → Sending → Sending
flush c l = record l {
  packets = l.packets ++ small_unreliable l.packet_sequence c.channel_id l.small_messages ∷ [];
  small_messages = [];
  small_messages_bytes = 0;
  packet_sequence = add_u64 l.packet_sequence 1;
}

pub collect : Bytes → ℕ → Sending → Sending
collect message serialized_size l = record l {
  small_messages = l.small_messages ++ message ∷ [];
  small_messages_bytes = l.small_messages_bytes + serialized_size;
}

-- No bytes are left for the message: it is dropped, or saved for later.
pub hold_back : SendChannelUnreliable → Bytes → Sending → Sending
hold_back c message l =
    if c.ordered_reliable_substrate
    then record l {
      overflow_messages = l.overflow_messages ++ message ∷ [];
      overflow_trigger = true;
    }
    else l

-- `push_front` of each saved message in turn.
pub restore : List Bytes → SendChannelUnreliable → SendChannelUnreliable
restore [] c = c
restore (message ∷ rest) c = restore rest (record c {
  unreliable_messages = message ∷ c.unreliable_messages;
  memory_usage_bytes = add_u64 c.memory_usage_bytes (length message);
})

pub flush_rest : SendChannelUnreliable → List Bytes → Sending → Sending
flush_rest c [] l = l
flush_rest c (message ∷ rest) l = flush c l

abbrev pub start : SendChannelUnreliable → ℕ → ℕ → Sending
start c packet_sequence available_bytes = record {
  packets = [];
  small_messages = [];
  small_messages_bytes = 0;
  overflow_messages = [];
  overflow_trigger = false;
  memory_usage_bytes = c.memory_usage_bytes;
  sliced_message_id = c.sliced_message_id;
  packet_sequence = packet_sequence;
  available_bytes = available_bytes;
}

pub record Sent : Type 0 where
  pub channel : SendChannelUnreliable
  pub packets : List Packet
  pub packet_sequence : ℕ
  pub available_bytes : ℕ

module _ (o : Octets) where
  pub send_small : SendChannelUnreliable → Bytes → Sending → Sending
  send_small c message l =
      let serialized_size = length message + o.varint_len (length message) in
      if ltb slice_size (l.small_messages_bytes + serialized_size)
      then collect message serialized_size (flush c l)
      else collect message serialized_size l

  pub take_up : SendChannelUnreliable → Bytes → Sending → Sending
  take_up c message l =
      if ltb slice_size (length message) then send_sliced c message l else send_small c message l

  -- One round of `while let Some(message) = self.unreliable_messages.pop_front()`.
  pub send_round : SendChannelUnreliable → Bytes → Sending → Sending
  send_round c message l0 =
      let l = record l0 { memory_usage_bytes = sub_u64 l0.memory_usage_bytes (length message) } in
      if ltb l.available_bytes (length message) || l.overflow_trigger
      then hold_back c message l
      else take_up c message
          (record l { available_bytes = sub_u64 l.available_bytes (length message) })

  pub send_rounds : SendChannelUnreliable → List Bytes → Sending → Sending
  send_rounds c [] l = l
  send_rounds c (message ∷ rest) l = send_rounds c rest (send_round c message l)

  pub get_packets_to_send : SendChannelUnreliable → ℕ → ℕ → Sent
  get_packets_to_send c packet_sequence available_bytes =
      let l = send_rounds c c.unreliable_messages (start c packet_sequence available_bytes) in
      let f = flush_rest c l.small_messages l in
      record {
        channel = restore l.overflow_messages (record c {
          unreliable_messages = [];
          memory_usage_bytes = l.memory_usage_bytes;
          sliced_message_id = l.sliced_message_id;
        });
        packets = f.packets;
        packet_sequence = f.packet_sequence;
        available_bytes = f.available_bytes;
      }
