-- ===== src/SendReliable/Runs.antt =====
-- Tests of `SendChannelReliable`, and the theorems at concrete inputs.
use renet.Base.{
  ℕ, ◌≡◌, refl, zero, suc, ap, true, false, List, [], ◌∷◌, Option, none, some, get_elem?, replicate,
  ◌+◌, arith, add_u64, sub_u64, ok,
}
use renet.Channel.{Bytes, Ensures, Returns}
use renet.Map.{lookup}
use renet.Packet.Quic.{quic}
use renet.Packet.{reliable_slice}
use renet.Slice.{count_slices, slice_payload}
use renet.Slice.Received.{count_true}
use renet.Unreliable.Budget.{all_payload_bytes}
use renet.Unreliable.Sequence.{Consecutive}
use renet.SendReliable.{
  SlicedMessage, UnackedMessage, small, sliced, SendChannelReliable, send_message,
  process_message_ack, process_slice_message_ack, get_packets_to_send, finish, flush, flush_rest,
  send_rounds, send_unacked, send_small, send_slices, send_slice, send_due, push_slice, mark_sent,
  sent_recently, collect,
}
use renet.SendReliable.Loop.{IsPast, IsSliced, Matches}
use renet.SendReliable.Memory.{IsChannel, send_message-IsChannel, get_packets_to_send-IsChannel}
use renet.SendReliable.Acks.{
  HasSlice, IsGivenUp, IsAcknowledged, process_message_ack-IsChannel,
  process_slice_message_ack-IsChannel,
}
use renet.SendReliable.Packets.{
  AllCarry, get_packets_to_send_numbered, get_packets_to_send_within, get_packets_to_send_carries,
}

abbrev long : Bytes
long = replicate 1201 7

-- A small message that was sent at 40, and a long one of which the first slice is acknowledged.
abbrev parts : SlicedMessage
parts = record {
  message = long;
  num_slices = 2;
  num_acked_slices = 1;
  next_slice_to_send = 1;
  acked = true ∷ false ∷ [];
  last_sent = some 30 ∷ none ∷ [];
}

abbrev channel : SendChannelReliable
channel = record {
  channel_id = 3;
  unacked_messages = (4, small (1 ∷ 2 ∷ []) (some 40)) ∷ (6, sliced parts) ∷ [];
  next_reliable_message_id = 7;
  resend_time = 20;
  max_memory_usage_bytes = 5000;
  memory_usage_bytes = 1203;
}

-- At 50 the small message has been sent recently, and the second slice is due.
at_50 :
    get_packets_to_send quic channel 9 3000 50
    ≡ ok (record {
      channel = record channel {
        unacked_messages =
            (4, small (1 ∷ 2 ∷ []) (some 40))
            ∷ (
              6,
              sliced (record parts { next_slice_to_send = 2; last_sent = some 30 ∷ some 50 ∷ [] }),
            )
            ∷ [];
      };
      packets =
          reliable_slice 9 3
            (record { message_id = 6; slice_index = 1; num_slices = 2; payload = 7 ∷ [] })
          ∷ [];
      packet_sequence = 10;
      available_bytes = 2999;
    })
unfolding get_packets_to_send finish flush flush_rest send_rounds send_unacked send_small
    send_slices send_slice send_due push_slice mark_sent sent_recently collect slice_payload add_u64
    sub_u64
at_50 = refl

parts-IsPast : (i : ℕ) (t : Option ℕ) → get_elem? parts.last_sent i ≡ some t → IsPast 50 t
parts-IsPast zero none e = tt
parts-IsPast zero (some t) e = let at_30 : 30 ≡ t = cc in omega arith
parts-IsPast (suc zero) none e = tt
parts-IsPast (suc zero) (some t) e = cc
parts-IsPast (suc (suc i)) t e = cc

one_slice : (u : UnackedMessage) → lookup 6 channel.unacked_messages ≡ some u → HasSlice 1 u
unfolding lookup
one_slice (small m t) e = cc
one_slice (sliced s) e =
    let same : parts ≡ s = cc in
    let two : 2 ≡ s.num_slices = ap (λ r. r.num_slices) same in omega arith

parts-IsSliced : IsSliced 50 parts
unfolding count_slices count_true
parts-IsSliced = record {
  number = refl;
  message = record { filled = omega arith; bounded = omega arith };
  flags = refl;
  times = refl;
  count = refl;
  unfinished = omega arith;
  long = omega arith;
  past = parts-IsPast;
}

channel-IsChannel : IsChannel 50 channel
channel-IsChannel = record {
  exact = refl;
  limited = omega arith;
  machine = omega arith;
  rising = (omega arith, (omega arith, tt));
  fresh = (omega arith, (omega arith, tt));
  entries = ((omega arith, omega arith), (parts-IsSliced, tt));
}

send_message-IsChannel_example : Ensures (IsChannel 50) (send_message channel long)
unfolding count_slices
send_message-IsChannel_example =
    send_message-IsChannel 50 channel long (omega arith) (omega arith) (omega arith)
      channel-IsChannel

get_packets_to_send-IsChannel_example :
    Returns
      (λ sent.
        IsChannel 70 sent.channel
        × Matches 70 channel.unacked_messages sent.channel.unacked_messages)
      (get_packets_to_send quic channel 9 3000 70)
get_packets_to_send-IsChannel_example =
    get_packets_to_send-IsChannel quic 50 70 channel 9 3000 (omega arith) channel-IsChannel

process_message_ack-IsChannel_example :
    Returns (λ d. IsChannel 50 d × IsGivenUp 4 channel d) (process_message_ack channel 4)
unfolding lookup
process_message_ack-IsChannel_example =
    process_message_ack-IsChannel 50 channel 4 (λ s e. cc) channel-IsChannel

process_slice_message_ack-IsChannel_example :
    Returns
      (λ d. IsChannel 50 d × IsAcknowledged 6 1 channel d)
      (process_slice_message_ack channel 6 1)
unfolding lookup
process_slice_message_ack-IsChannel_example =
    process_slice_message_ack-IsChannel 50 channel 6 1 one_slice channel-IsChannel

get_packets_to_send_numbered_example :
    Returns
      (λ sent. Consecutive 9 sent.packets sent.packet_sequence)
      (get_packets_to_send quic channel 9 3000 70)
get_packets_to_send_numbered_example =
    get_packets_to_send_numbered quic channel 50 70 9 3000 (omega arith) channel-IsChannel

get_packets_to_send_within_example :
    Returns
      (λ sent. all_payload_bytes sent.packets + sent.available_bytes ≡ 3000)
      (get_packets_to_send quic channel 9 3000 70)
get_packets_to_send_within_example =
    get_packets_to_send_within quic channel 50 70 9 3000 (omega arith) (omega arith)
      channel-IsChannel

-- The messages that were queued, by their ids.
abbrev queued : List Bytes
queued = [] ∷ [] ∷ [] ∷ [] ∷ (1 ∷ 2 ∷ []) ∷ [] ∷ long ∷ []

get_packets_to_send_carries_example :
    Returns
      (λ sent. AllCarry (λ id m. get_elem? queued id ≡ some m) sent.packets)
      (get_packets_to_send quic channel 9 3000 70)
get_packets_to_send_carries_example =
    get_packets_to_send_carries quic channel (λ id m. get_elem? queued id ≡ some m) 50 70 9 3000
      (omega arith) channel-IsChannel (refl, (refl, tt))
