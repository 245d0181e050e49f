-- ===== src/Unreliable/Untracked.antt =====
-- The packets of an unreliable channel are of the two kinds that are not acknowledged.
use renet.Base.{ℕ, zero, suc, ◌+◌, List, [], ◌∷◌, ◌++◌, arith, length, add_u64, sub_u64}
use renet.Channel.{Bytes}
use renet.Packet.{
  Octets, Packet, small_reliable, small_unreliable, reliable_slice, unreliable_slice, ack,
}
use renet.Slice.{count_slices}
use renet.Unreliable.{
  SendChannelUnreliable, Sending, slice_packets, send_round, send_rounds, hold_back, take_up,
  send_small, send_sliced, flush, flush_rest, collect, start, get_packets_to_send,
}

abbrev pub IsUntracked : Packet → Type 0
IsUntracked (small_unreliable sequence channel_id messages) = Unit {0}
IsUntracked (unreliable_slice sequence channel_id slice) = Unit {0}
IsUntracked (small_reliable sequence channel_id messages) = ⊥
IsUntracked (reliable_slice sequence channel_id slice) = ⊥
IsUntracked (ack sequence ack_ranges) = ⊥

abbrev pub AllUntracked : List Packet → Type 0
AllUntracked [] = Unit {0}
AllUntracked (p ∷ rest) = IsUntracked p × AllUntracked rest

AllUntracked-append :
    (ps qs : List Packet) → AllUntracked ps → AllUntracked qs → AllUntracked (ps ++ qs)
AllUntracked-append [] qs h k = k
AllUntracked-append (p ∷ ps) qs h k = (h.0, AllUntracked-append ps qs h.1 k)

slice_packets-AllUntracked :
    (c id : ℕ) (m : Bytes) (n s left i : ℕ) → AllUntracked (slice_packets c id m n s left i)
unfolding slice_packets
slice_packets-AllUntracked c id m n s zero i = tt
slice_packets-AllUntracked c id m n s (suc left) i =
    (tt, slice_packets-AllUntracked c id m n (add_u64 s 1) left (i + 1))

flush-AllUntracked :
    (c : SendChannelUnreliable) (l : Sending)
    → AllUntracked l.packets
    → AllUntracked (flush c l).packets
unfolding flush
flush-AllUntracked c l h = AllUntracked-append l.packets _ h (tt, tt)

module _ (o : Octets) where
  take_up-AllUntracked :
      (c : SendChannelUnreliable) (m : Bytes) (l : Sending)
      → AllUntracked l.packets
      → AllUntracked (take_up o c m l).packets
  unfolding take_up send_small send_sliced collect
  take_up-AllUntracked c m l h = ground (
    arith,
    h,
    flush-AllUntracked c l h,
    AllUntracked-append l.packets _ h (
        slice_packets-AllUntracked c.channel_id l.sliced_message_id m (count_slices m)
          l.packet_sequence (count_slices m) 0),
  )

  send_round-AllUntracked :
      (c : SendChannelUnreliable) (m : Bytes) (l : Sending)
      → AllUntracked l.packets
      → AllUntracked (send_round o c m l).packets
  unfolding send_round hold_back
  send_round-AllUntracked c m l h = ground (
    arith,
    h,
    take_up-AllUntracked c m
        (record l {
          memory_usage_bytes = sub_u64 l.memory_usage_bytes (length m);
          available_bytes = sub_u64 l.available_bytes (length m);
        })
        h,
  )

  send_rounds-AllUntracked :
      (c : SendChannelUnreliable) (ms : List Bytes) (l : Sending)
      → AllUntracked l.packets
      → AllUntracked (send_rounds o c ms l).packets
  unfolding send_rounds
  send_rounds-AllUntracked c [] l h = h
  send_rounds-AllUntracked c (m ∷ rest) l h =
      send_rounds-AllUntracked c rest (send_round o c m l) (send_round-AllUntracked c m l h)

flush_rest-AllUntracked :
    (c : SendChannelUnreliable) (ms : List Bytes) (l : Sending)
    → AllUntracked l.packets
    → AllUntracked (flush_rest c ms l).packets
unfolding flush_rest
flush_rest-AllUntracked c [] l h = h
flush_rest-AllUntracked c (m ∷ rest) l h = flush-AllUntracked c l h

pub get_packets_to_send-AllUntracked :
    (o : Octets) (c : SendChannelUnreliable) (packet_sequence available_bytes : ℕ)
    → AllUntracked (get_packets_to_send o c packet_sequence available_bytes).packets
unfolding get_packets_to_send
get_packets_to_send-AllUntracked o c s a =
    let l : Sending = send_rounds o c c.unreliable_messages (start c s a) in
    flush_rest-AllUntracked c l.small_messages l
      (send_rounds-AllUntracked o c c.unreliable_messages (start c s a) tt)
