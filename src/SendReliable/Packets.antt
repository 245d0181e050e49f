-- ===== src/SendReliable/Packets.antt =====
-- The packets that a reliable channel sends: their numbers, their bytes and what they carry.
use renet.Base.{
  ℕ, ◌+◌, ◌<◌, ◌≤◌, ◌≡◌, refl, ap, List, [], ◌∷◌, ◌++◌, length, arith, sub_u64, sub_u64-exact,
  IsU64,
}
use renet.Channel.{Bytes, slice_size, Returns, Returns-map}
use renet.Map.{Every}
use renet.Packet.{
  Octets, Packet, small_reliable, small_unreliable, reliable_slice, unreliable_slice, ack,
  sequence_of,
}
use renet.Slice.{count_slices, slice_payload}
use renet.Slice.Store.{IsMessage, payload, payload_short}
use renet.Unreliable.Budget.{second_total, all_payload_bytes, all_payload_bytes-append}
use renet.Unreliable.Sequence.{Consecutive, Consecutive-append}
use renet.SendReliable.{
  SlicedMessage, UnackedMessage, SendChannelReliable, Sending, push_slice, collect, flush,
  get_packets_to_send,
}
use renet.SendReliable.Loop.{IsSliced, message_of}
use renet.SendReliable.Memory.{IsChannel}
use renet.SendReliable.Final.{Ends, get_packets_to_send-Ends}

pub no_condition : (m : List (ℕ × UnackedMessage)) → Every (λ k u. Unit {0}) m
no_condition [] = tt
no_condition (x ∷ m) = (tt, no_condition m)

-- The packets of a call carry consecutive sequences from the given one on, and the sequence it
-- leaves behind is the one after the last packet's, for a channel in order and a time not before
-- that of an earlier call.
pub get_packets_to_send_numbered :
    (o : Octets) (c : SendChannelReliable) (t now packet_sequence available_bytes : ℕ)
    → t ≤ now
    → IsChannel t c
    → Returns
        (λ sent. Consecutive packet_sequence sent.packets sent.packet_sequence)
        (get_packets_to_send o c packet_sequence available_bytes now)
unfolding push_slice collect flush sequence_of
get_packets_to_send_numbered o c t now s a h v =
    Returns-map (Ends Numbered) (λ sent. Consecutive s sent.packets sent.packet_sequence)
      (get_packets_to_send o c s a now)
      (get_packets_to_send-Ends o c t now Numbered (λ id m. Unit {0})
        (λ id i r l b x q k p. Consecutive-append s l.packet_sequence _ l.packets _ p (refl, refl))
        (λ id m size l q k b p. p)
        (λ l p. Consecutive-append s l.packet_sequence _ l.packets _ p (refl, refl)) s a h v
        (no_condition c.unacked_messages) refl)
      (λ sent e. rw (e.packets, e.sequence) e.holds)
  where
    Numbered : Sending → Type 0
    Numbered l = Consecutive s l.packets l.packet_sequence

second_total-append :
    (ms ns : List (ℕ × Bytes)) → second_total (ms ++ ns) ≡ second_total ms + second_total ns
second_total-append [] ns = omega arith
second_total-append ((k, m) ∷ ms) ns = omega (arith, second_total-append ms ns)

-- The bytes of messages that the packets carry and the bytes that stay available are together the
-- bytes that were available, for a channel in order and a time not before that of an earlier call.
pub get_packets_to_send_within :
    (o : Octets) (c : SendChannelReliable) (t now packet_sequence available_bytes : ℕ)
    → t ≤ now
    → IsU64 available_bytes
    → IsChannel t c
    → Returns
        (λ sent. all_payload_bytes sent.packets + sent.available_bytes ≡ available_bytes)
        (get_packets_to_send o c packet_sequence available_bytes now)
unfolding push_slice collect flush
get_packets_to_send_within o c t now s a h u v =
    Returns-map (Ends Spent) (λ sent. all_payload_bytes sent.packets + sent.available_bytes ≡ a)
      (get_packets_to_send o c s a now)
      (get_packets_to_send-Ends o c t now Spent (λ id m. Unit {0}) push add flushed s a h v
        (no_condition c.unacked_messages) (omega arith))
      (λ sent e. rw (e.packets, e.available) (total e.last e.none_left e.holds))
  where
    Spent : Sending → Type 0
    Spent l = all_payload_bytes l.packets + second_total l.small_messages + l.available_bytes ≡ a

    total :
        (l : Sending)
        → l.small_messages ≡ []
        → Spent l
        → all_payload_bytes l.packets + l.available_bytes ≡ a
    total l e p = let none : second_total l.small_messages ≡ 0 = ap second_total e in omega arith

    push :
        (id i : ℕ) (r : SlicedMessage) (l : Sending)
        → slice_size ≤ l.available_bytes
        → IsSliced now r
        → Unit {0}
        → i < r.num_slices
        → Spent l
        → Spent (push_slice c id r i l)
    push id i r l b x q k p =
        let short : length (slice_payload r.message r.num_slices i) ≤ 1200 =
          rw x.number (payload_short r.message x.message i (omega (arith, x.number))) in
        let packet : Packet = reliable_slice l.packet_sequence c.channel_id (record {
          message_id = id;
          slice_index = i;
          num_slices = r.num_slices;
          payload = slice_payload r.message r.num_slices i;
        }) in
        omega (
          arith,
          all_payload_bytes-append l.packets (packet ∷ []),
          sub_u64-exact l.available_bytes (length (slice_payload r.message r.num_slices i))
              (omega arith) (omega arith),
        )

    add :
        (id : ℕ) (m : Bytes) (size : ℕ) (l : Sending)
        → Unit {0}
        → length m ≤ slice_size
        → length m ≤ l.available_bytes
        → Spent l
        → Spent (
            collect id m size (record l { available_bytes = sub_u64 l.available_bytes (length m) }))
    add id m size l q k b p = omega (
      arith,
      second_total-append l.small_messages ((id, m) ∷ []),
      sub_u64-exact l.available_bytes (length m) b (omega arith),
    )

    flushed : (l : Sending) → Spent l → Spent (flush c l)
    flushed l p = omega (
      arith,
      all_payload_bytes-append l.packets
          (small_reliable l.packet_sequence c.channel_id l.small_messages ∷ []),
    )

-- What a packet carries: messages under their ids, or a slice cut from one.
abbrev pub Carries : (ℕ → Bytes → Type 0) → Packet → Type 0
Carries Q (small_reliable sequence channel_id messages) = Every Q messages
Carries Q (reliable_slice sequence channel_id slice) =
    (m : Bytes) × Q slice.message_id m
    × IsMessage m
    × (slice.slice_index < count_slices m)
    × (slice.num_slices ≡ count_slices m)
    × (slice.payload ≡ payload m slice.slice_index)
Carries Q (small_unreliable sequence channel_id messages) = ⊥
Carries Q (unreliable_slice sequence channel_id slice) = ⊥
Carries Q (ack sequence ack_ranges) = ⊥

abbrev pub AllCarry : (ℕ → Bytes → Type 0) → List Packet → Type 0
AllCarry Q [] = Unit {0}
AllCarry Q (p ∷ rest) = Carries Q p × AllCarry Q rest

pub AllCarry-append :
    (Q : ℕ → Bytes → Type 0) (ps qs : List Packet)
    → AllCarry Q ps
    → AllCarry Q qs
    → AllCarry Q (ps ++ qs)
AllCarry-append Q [] qs h k = k
AllCarry-append Q (p ∷ ps) qs h k = (h.0, AllCarry-append Q ps qs h.1 k)

Every-append :
    (Q : ℕ → Bytes → Type 0) (ms ns : List (ℕ × Bytes))
    → Every Q ms
    → Every Q ns
    → Every Q (ms ++ ns)
Every-append Q [] ns h k = k
Every-append Q (x ∷ ms) ns h k = (h.0, Every-append Q ms ns h.1 k)

-- The packets carry what the channel holds and nothing else: each of their messages, and the
-- message of each of their slices, is one that is queued under that id, and a slice is cut from it
-- at its index. For a channel in order and a time not before that of an earlier call, and any
-- relation `Q` of ids to messages that every queued message has.
pub get_packets_to_send_carries :
    (o : Octets) (c : SendChannelReliable) (Q : ℕ → Bytes → Type 0)
    (t now packet_sequence available_bytes : ℕ)
    → t ≤ now
    → IsChannel t c
    → Every (λ k u. Q k (message_of u)) c.unacked_messages
    → Returns
        (λ sent. AllCarry Q sent.packets)
        (get_packets_to_send o c packet_sequence available_bytes now)
unfolding push_slice collect flush
get_packets_to_send_carries o c Q t now s a h v w =
    Returns-map (Ends Carried) (λ sent. AllCarry Q sent.packets) (get_packets_to_send o c s a now)
      (get_packets_to_send-Ends o c t now Carried Q
        (λ id i r l b x q k p. (AllCarry-append Q l.packets _ p.0 (cut id i r x q k l, tt), p.1))
        (λ id m size l q k b p. (p.0, Every-append Q l.small_messages ((id, m) ∷ []) p.1 (q, tt)))
        (λ l p. (AllCarry-append Q l.packets _ p.0 (p.1, tt), tt)) s a h v w (tt, tt))
      (λ sent e. rw e.packets e.holds.0)
  where
    Carried : Sending → Type 0
    Carried l = AllCarry Q l.packets × Every Q l.small_messages

    cut :
        (id i : ℕ) (r : SlicedMessage)
        → IsSliced now r
        → Q id r.message
        → i < r.num_slices
        → (l : Sending)
        → Carries Q (
            reliable_slice l.packet_sequence c.channel_id (record {
              message_id = id;
              slice_index = i;
              num_slices = r.num_slices;
              payload = slice_payload r.message r.num_slices i;
            }))
    cut id i r x q k l =
        (r.message, q, x.message, omega (arith, x.number), x.number, rw x.number refl)
