-- ===== src/Unreliable/Runs.antt =====
-- The unit tests of renet2/src/channel/unreliable.rs in small, and the theorems at concrete inputs.
use mathlib.Core.List.{reverse}
use renet.Base.{◌+◌, ◌≡◌, refl, List, [], ◌∷◌, ◌++◌, arith, replicate, true, add_u64, sub_u64}
use renet.Channel.{Bytes}
use renet.Packet.{small_unreliable}
use renet.Packet.Quic.{quic}
use renet.Slice.{count_slices}
use renet.Unreliable.{
  SendChannelUnreliable, get_packets_to_send, send_rounds, send_round, hold_back, take_up,
  send_small, send_sliced, slice_packets, count_up, flush, collect, flush_rest, restore,
}
use renet.Unreliable.Memory.{Accounts, get_packets_to_send-Accounts}
use renet.Unreliable.Budget.{all_payload_bytes, get_packets_to_send_budget}
use renet.Unreliable.Sequence.{Consecutive, get_packets_to_send-Consecutive}
use renet.Unreliable.Contents.{smalls_of, smalls, joined, larges}
use renet.Unreliable.Substrate.{get_packets_to_send_reverses, small_message_overtaken}

abbrev queue : SendChannelUnreliable
queue = record {
  channel_id = 1;
  unreliable_messages = (1 ∷ 2 ∷ []) ∷ (3 ∷ []) ∷ (4 ∷ []) ∷ [];
  sliced_message_id = 0;
  max_memory_usage_bytes = 10;
  memory_usage_bytes = 4;
  ordered_reliable_substrate = true;
}

queue-Accounts : Accounts queue
queue-Accounts = record { exact = refl; limited = omega arith; machine = omega arith }

-- Two bytes are available: the first message goes out, the other two come back reversed.
reversed :
    (get_packets_to_send quic queue 7 2).channel.unreliable_messages ≡ (4 ∷ []) ∷ (3 ∷ []) ∷ []
unfolding get_packets_to_send send_rounds send_round hold_back take_up send_small send_sliced flush
    collect flush_rest restore add_u64 sub_u64
reversed = refl

one_packet :
    (get_packets_to_send quic queue 7 100).packets
    ≡ small_unreliable 7 1 ((1 ∷ 2 ∷ []) ∷ (3 ∷ []) ∷ (4 ∷ []) ∷ []) ∷ []
unfolding get_packets_to_send send_rounds send_round hold_back take_up send_small send_sliced flush
    collect flush_rest restore add_u64 sub_u64
one_packet = refl

-- A message of 1200 bytes does not fit beside its own length, and is sent behind an empty packet.
abbrev full : Bytes
full = replicate 1200 0

empty_packet :
    (get_packets_to_send quic (record queue { unreliable_messages = full ∷ [] }) 7 2000).packets
    ≡ small_unreliable 7 1 [] ∷ small_unreliable 8 1 (full ∷ []) ∷ []
unfolding get_packets_to_send send_rounds send_round hold_back take_up send_small send_sliced flush
    collect flush_rest restore add_u64 sub_u64
empty_packet = refl

get_packets_to_send-Accounts_example : Accounts (get_packets_to_send quic queue 7 2).channel
get_packets_to_send-Accounts_example = get_packets_to_send-Accounts quic queue 7 2 queue-Accounts

get_packets_to_send_budget_example :
    all_payload_bytes (get_packets_to_send quic queue 7 2).packets
      + (get_packets_to_send quic queue 7 2).available_bytes
    ≡ 2
unfolding count_slices
get_packets_to_send_budget_example =
    get_packets_to_send_budget quic queue 7 2 (omega arith) (omega arith)

get_packets_to_send-Consecutive_example :
    Consecutive 7
      (get_packets_to_send quic queue 7 2).packets
      (get_packets_to_send quic queue 7 2).packet_sequence
get_packets_to_send-Consecutive_example = get_packets_to_send-Consecutive quic queue 7 2

get_packets_to_send_reverses_example :
    (front : List Bytes) × (kept : List Bytes) × (queue.unreliable_messages ≡ front ++ kept)
    × ((get_packets_to_send quic queue 7 2).channel.unreliable_messages ≡ reverse kept)
    × (smalls_of (get_packets_to_send quic queue 7 2).packets ≡ smalls front)
    × (joined (get_packets_to_send quic queue 7 2).packets ≡ larges front)
unfolding count_slices
get_packets_to_send_reverses_example =
    get_packets_to_send_reverses quic queue 7 2 refl (omega arith) (omega arith)

abbrev mixed : SendChannelUnreliable
mixed = record queue { unreliable_messages = (5 ∷ []) ∷ replicate 1300 6 ∷ [] }

small_message_overtaken_example :
    (get_packets_to_send quic mixed 7 2000).packets
    ≡ slice_packets 1 0
        (replicate 1300 6)
        (count_slices (replicate 1300 6))
        7
        (count_slices (replicate 1300 6))
        0
      ++ small_unreliable (count_up 7 (count_slices (replicate 1300 6))) 1 ((5 ∷ []) ∷ []) ∷ []
small_message_overtaken_example =
    small_message_overtaken quic mixed (5 ∷ []) (replicate 1300 6) 7 2000 refl (omega arith)
      (omega arith) (omega arith) (omega arith)
