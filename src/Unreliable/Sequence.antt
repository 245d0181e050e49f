-- ===== src/Unreliable/Sequence.antt =====
-- The packets of one call are numbered one after the other.
use renet.Base.{ℕ, zero, suc, ◌+◌, ◌≡◌, refl, List, [], ◌∷◌, ◌++◌, arith, length, add_u64, sub_u64}
use renet.Channel.{Bytes}
use renet.Packet.{Octets, Packet, sequence_of}
use renet.Slice.{count_slices}
use renet.Unreliable.{
  SendChannelUnreliable, Sending, slice_packets, count_up, send_round, send_rounds, hold_back,
  take_up, send_small, send_sliced, flush, flush_rest, collect, start, get_packets_to_send,
}

-- `s` is the sequence of the first packet, and `s'` the one after the last.
abbrev pub Consecutive : ℕ → List Packet → ℕ → Type 0
Consecutive s [] s' = s ≡ s'
Consecutive s (p ∷ rest) s' = (sequence_of p ≡ s) × Consecutive (add_u64 s 1) rest s'

pub Consecutive-append :
    (s t u : ℕ) (ps qs : List Packet)
    → Consecutive s ps t
    → Consecutive t qs u
    → Consecutive s (ps ++ qs) u
Consecutive-append s t u [] qs h k = rw h k
Consecutive-append s t u (p ∷ ps) qs h k = (h.0, Consecutive-append (add_u64 s 1) t u ps qs h.1 k)

slice_packets-Consecutive :
    (c id : ℕ) (m : Bytes) (n s left i : ℕ)
    → Consecutive s (slice_packets c id m n s left i) (count_up s left)
unfolding slice_packets count_up sequence_of
slice_packets-Consecutive c id m n s zero i = refl
slice_packets-Consecutive c id m n s (suc left) i =
    (refl, slice_packets-Consecutive c id m n (add_u64 s 1) left (i + 1))

-- The packets so far, from the first sequence up to the next.
abbrev Numbered : ℕ → Sending → Type 0
Numbered s l = Consecutive s l.packets l.packet_sequence

module _ (s : ℕ) where
  flush-Numbered : (c : SendChannelUnreliable) (l : Sending) → Numbered s l → Numbered s (flush c l)
  unfolding flush sequence_of
  flush-Numbered c l h = Consecutive-append s l.packet_sequence _ l.packets _ h (refl, refl)

  collect-Numbered :
      (m : Bytes) (size : ℕ) (l : Sending) → Numbered s l → Numbered s (collect m size l)
  unfolding collect
  collect-Numbered m size l h = h

  send_sliced-Numbered :
      (c : SendChannelUnreliable) (m : Bytes) (l : Sending)
      → Numbered s l
      → Numbered s (send_sliced c m l)
  unfolding send_sliced
  send_sliced-Numbered c m l h = Consecutive-append s l.packet_sequence _ l.packets _ h (
      slice_packets-Consecutive c.channel_id l.sliced_message_id m (count_slices m)
        l.packet_sequence (count_slices m) 0)

  module _ (o : Octets) where
    take_up-Numbered :
        (c : SendChannelUnreliable) (m : Bytes) (l : Sending)
        → Numbered s l
        → Numbered s (take_up o c m l)
    unfolding take_up send_small
    take_up-Numbered c m l h =
        let size : ℕ = length m + o.varint_len (length m) in
        ground (
          arith,
          send_sliced-Numbered c m l h,
          collect-Numbered m size l h,
          collect-Numbered m size (flush c l) (flush-Numbered c l h),
        )

    send_round-Numbered :
        (c : SendChannelUnreliable) (m : Bytes) (l : Sending)
        → Numbered s l
        → Numbered s (send_round o c m l)
    unfolding send_round hold_back
    send_round-Numbered c m l h = ground (
      arith,
      take_up-Numbered c m
          (record l {
            memory_usage_bytes = sub_u64 l.memory_usage_bytes (length m);
            available_bytes = sub_u64 l.available_bytes (length m);
          })
          h,
    )

    send_rounds-Numbered :
        (c : SendChannelUnreliable) (ms : List Bytes) (l : Sending)
        → Numbered s l
        → Numbered s (send_rounds o c ms l)
    unfolding send_rounds
    send_rounds-Numbered c [] l h = h
    send_rounds-Numbered c (m ∷ rest) l h =
        send_rounds-Numbered c rest (send_round o c m l) (send_round-Numbered c m l h)

flush_rest-Numbered :
    (s : ℕ) (c : SendChannelUnreliable) (ms : List Bytes) (l : Sending)
    → Numbered s l
    → Numbered s (flush_rest c ms l)
unfolding flush_rest
flush_rest-Numbered s c [] l h = h
flush_rest-Numbered s c (m ∷ rest) l h = flush-Numbered s c l h

-- The packets of a call carry consecutive sequences from `packet_sequence` on, and the sequence it
-- leaves behind is the one after the last packet's.
pub get_packets_to_send-Consecutive :
    (o : Octets) (c : SendChannelUnreliable) (packet_sequence available_bytes : ℕ)
    → let sent = get_packets_to_send o c packet_sequence available_bytes in
      Consecutive packet_sequence sent.packets sent.packet_sequence
unfolding get_packets_to_send
get_packets_to_send-Consecutive o c s a =
    let l : Sending = send_rounds o c c.unreliable_messages (start c s a) in
    flush_rest-Numbered s c l.small_messages l
      (send_rounds-Numbered s o c c.unreliable_messages (start c s a) refl)
