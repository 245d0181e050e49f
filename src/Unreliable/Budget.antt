-- ===== src/Unreliable/Budget.antt =====
-- The bytes of the packets are taken from the bytes available.
use renet.Base.{
  ap, ℕ, zero, suc, ◌+◌, ◌*◌, ◌^◌, ◌<◌, ◌≤◌, ◌≡◌, refl, ◌∙◌, List, [], ◌∷◌, ◌++◌, arith, length,
  add_u64, sub_u64, sub_u64-exact, ◌==◌, if◌then◌else◌,
}
use renet.Channel.{Bytes, total, total-append}
use renet.Packet.{
  Octets, Packet, small_reliable, small_unreliable, unreliable_slice, reliable_slice, ack,
}
use renet.Slice.{count_slices}
use renet.Slice.Store.{IsMessage, length-slice_payload}
use renet.Unreliable.{
  SendChannelUnreliable, Sending, slice_packets, send_round, send_rounds, hold_back, take_up,
  send_small, send_sliced, flush, flush_rest, collect, start, get_packets_to_send,
}

abbrev pub second_total : List (ℕ × Bytes) → ℕ
second_total [] = 0
second_total ((message_id, message) ∷ rest) = length message + second_total rest

-- The bytes of messages that a packet carries.
abbrev pub payload_bytes : Packet → ℕ
payload_bytes (small_reliable sequence channel_id messages) = second_total messages
payload_bytes (small_unreliable sequence channel_id messages) = total messages
payload_bytes (unreliable_slice sequence channel_id slice) = length slice.payload
payload_bytes (reliable_slice sequence channel_id slice) = length slice.payload
payload_bytes (ack sequence ack_ranges) = 0

abbrev pub all_payload_bytes : List Packet → ℕ
all_payload_bytes [] = 0
all_payload_bytes (p ∷ rest) = payload_bytes p + all_payload_bytes rest

pub all_payload_bytes-append :
    (ps qs : List Packet)
    → all_payload_bytes (ps ++ qs) ≡ all_payload_bytes ps + all_payload_bytes qs
all_payload_bytes-append [] qs = omega arith
all_payload_bytes-append (p ∷ ps) qs = omega (arith, all_payload_bytes-append ps qs)

-- Messages whose slices the reader would accept.
abbrev pub AllMessages : List Bytes → Type 0
AllMessages [] = Unit {0}
AllMessages (m ∷ rest) = (count_slices m ≤ 1_000_000) × AllMessages rest

slice_packets-bytes :
    (c id : ℕ) (m : Bytes) (s left i : ℕ)
    → IsMessage m
    → suc i + left ≡ suc (count_slices m)
    → all_payload_bytes (slice_packets c id m (count_slices m) s left i) + i * 1200
      ≡ (if i == count_slices m then count_slices m * 1200 else length m)
unfolding slice_packets count_slices
slice_packets-bytes c id m s zero i v e = ground arith
slice_packets-bytes c id m s (suc left) i v e = ground (
  arith,
  v.filled,
  slice_packets-bytes c id m (add_u64 s 1) left (i + 1) v,
  length-slice_payload m i v,
)

-- The slices of a message carry the message's bytes.
pub slice_packets-total :
    (c id : ℕ) (m : Bytes) (s : ℕ)
    → IsMessage m
    → all_payload_bytes (slice_packets c id m (count_slices m) s (count_slices m) 0) ≡ length m
unfolding count_slices
slice_packets-total c id m s v =
    ground (arith, v.filled, slice_packets-bytes c id m s (count_slices m) 0 v)

-- What has gone out, what is collected, and what is left to spend.
abbrev spent : Sending → ℕ
spent l = all_payload_bytes l.packets + (total l.small_messages + l.available_bytes)

module _ (o : Octets) where
  flush-spent : (c : SendChannelUnreliable) (l : Sending) → spent (flush c l) ≡ spent l
  unfolding flush
  flush-spent c l = omega (
    arith,
    all_payload_bytes-append l.packets
        (small_unreliable l.packet_sequence c.channel_id l.small_messages ∷ []),
  )

  collect-spent :
      (m : Bytes) (size : ℕ) (l : Sending) → spent (collect m size l) ≡ spent l + length m
  unfolding collect
  collect-spent m size l = omega (arith, total-append l.small_messages (m ∷ []))

  send_small-spent :
      (c : SendChannelUnreliable) (m : Bytes) (l : Sending)
      → spent (send_small o c m l) ≡ spent l + length m
  unfolding send_small
  send_small-spent c m l =
      let size : ℕ = length m + o.varint_len (length m) in
      ground (arith, flush-spent c l, collect-spent m size l, collect-spent m size (flush c l))

  send_sliced-spent :
      (c : SendChannelUnreliable) (m : Bytes) (l : Sending)
      → IsMessage m
      → spent (send_sliced c m l) ≡ spent l + length m
  unfolding send_sliced
  send_sliced-spent c m l v = omega (
    arith,
    all_payload_bytes-append l.packets (
        slice_packets c.channel_id l.sliced_message_id m (count_slices m) l.packet_sequence
          (count_slices m) 0),
    slice_packets-total c.channel_id l.sliced_message_id m l.packet_sequence v,
  )

  take_up-spent :
      (c : SendChannelUnreliable) (m : Bytes) (l : Sending)
      → count_slices m ≤ 1_000_000
      → spent (take_up o c m l) ≡ spent l + length m
  unfolding take_up
  take_up-spent c m l h = ground (
    arith,
    send_small-spent c m l,
    λ (f : 0 < length m). send_sliced-spent c m l (record { filled = f; bounded = h }),
  )

  send_round-spent :
      (c : SendChannelUnreliable) (m : Bytes) (l : Sending)
      → count_slices m ≤ 1_000_000
      → l.available_bytes < 2 ^ 64
      → spent (send_round o c m l) ≡ spent l
  unfolding send_round hold_back
  send_round-spent c m l h u = ground (
    arith,
    sub_u64-exact l.available_bytes (length m),
    take_up-spent c m
        (record l {
          memory_usage_bytes = sub_u64 l.memory_usage_bytes (length m);
          available_bytes = sub_u64 l.available_bytes (length m);
        })
        h,
  )

  send_round-available :
      (c : SendChannelUnreliable) (m : Bytes) (l : Sending)
      → l.available_bytes < 2 ^ 64
      → (send_round o c m l).available_bytes ≤ l.available_bytes
  unfolding send_round hold_back take_up send_small send_sliced flush collect
  send_round-available c m l u = ground (arith, sub_u64-exact l.available_bytes (length m))

  send_rounds-spent :
      (c : SendChannelUnreliable) (ms : List Bytes) (l : Sending)
      → AllMessages ms
      → l.available_bytes < 2 ^ 64
      → spent (send_rounds o c ms l) ≡ spent l
  unfolding send_rounds
  send_rounds-spent c [] l v u = refl
  send_rounds-spent c (m ∷ rest) l v u =
      send_rounds-spent c rest (send_round o c m l) v.1
        (omega (arith, send_round-available c m l u))
      ∙ send_round-spent c m l v.0 u

  flush_rest-spent :
      (c : SendChannelUnreliable) (ms : List Bytes) (l : Sending)
      → l.small_messages ≡ ms
      → (spent (flush_rest c ms l) ≡ spent l) × (total (flush_rest c ms l).small_messages ≡ 0)
  unfolding flush_rest
  flush_rest-spent c [] l e = (refl, ap total e)
  flush_rest-spent c (m ∷ rest) l e = (flush-spent c l, unfold flush in refl)

  -- The bytes that the packets carry and the bytes that stay available are together the bytes that
  -- were available: nothing is sent beyond the budget of the tick, and what is held back or dropped
  -- costs nothing.
  pub get_packets_to_send_budget :
      (c : SendChannelUnreliable) (packet_sequence available_bytes : ℕ)
      → AllMessages c.unreliable_messages
      → available_bytes < 2 ^ 64
      → let sent = get_packets_to_send o c packet_sequence available_bytes in
        all_payload_bytes sent.packets + sent.available_bytes ≡ available_bytes
  unfolding get_packets_to_send
  get_packets_to_send_budget c s a v u =
      let l : Sending = send_rounds o c c.unreliable_messages (start c s a) in
      omega (
        arith,
        send_rounds-spent c c.unreliable_messages (start c s a) v u,
        flush_rest-spent c l.small_messages l refl,
      )
