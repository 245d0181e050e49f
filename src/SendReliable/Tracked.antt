-- ===== src/SendReliable/Tracked.antt =====
-- What is noted of a packet that was sent: its channel, and the ids that it carries.
use renet.Base.{ℕ, ◌<◌, ◌≤◌, ◌≡◌, refl, List, [], ◌∷◌, ◌++◌, length, arith}
use renet.Channel.{Bytes, slice_size, Returns, Returns-map}
use renet.Map.{Every}
use renet.Packet.{
  Octets, Packet, small_reliable, small_unreliable, reliable_slice, unreliable_slice, ack,
}
use renet.Slice.{count_slices}
use renet.SendReliable.{
  SendChannelReliable, Sending, push_slice, collect, flush, get_packets_to_send,
}
use renet.SendReliable.Loop.{message_of}
use renet.SendReliable.Memory.{IsChannel}
use renet.SendReliable.Final.{Ends, get_packets_to_send-Ends}

-- Small messages, or a slice of a long one, of the channel with the given id.
abbrev pub IsTracked : ℕ → (ℕ → Bytes → Type 0) → Packet → Type 0
IsTracked id Q (small_reliable sequence channel_id messages) =
    (channel_id ≡ id) × Every (λ i m. Q i m × (length m ≤ slice_size)) messages
IsTracked id Q (reliable_slice sequence channel_id slice) =
    (channel_id ≡ id)
    × (m : Bytes) × Q slice.message_id m
    × (slice_size < length m)
    × (slice.slice_index < count_slices m)
IsTracked id Q (small_unreliable sequence channel_id messages) = ⊥
IsTracked id Q (unreliable_slice sequence channel_id slice) = ⊥
IsTracked id Q (ack sequence ack_ranges) = ⊥

abbrev pub AllTracked : ℕ → (ℕ → Bytes → Type 0) → List Packet → Type 0
AllTracked id Q [] = Unit {0}
AllTracked id Q (p ∷ rest) = IsTracked id Q p × AllTracked id Q rest

AllTracked-append :
    (id : ℕ) (Q : ℕ → Bytes → Type 0) (ps qs : List Packet)
    → AllTracked id Q ps
    → AllTracked id Q qs
    → AllTracked id Q (ps ++ qs)
AllTracked-append id Q [] qs h k = k
AllTracked-append id Q (p ∷ ps) qs h k = (h.0, AllTracked-append id Q ps qs h.1 k)

Every-append :
    (Q : ℕ → Bytes → Type 0) (ms ns : List (ℕ × Bytes))
    → Every Q ms
    → Every Q ns
    → Every Q (ms ++ ns)
Every-append Q [] ns h k = k
Every-append Q (x ∷ ms) ns h k = (h.0, Every-append Q ms ns h.1 k)

pub get_packets_to_send-AllTracked :
    (o : Octets) (c : SendChannelReliable) (Q : ℕ → Bytes → Type 0)
    (t now packet_sequence available_bytes : ℕ)
    → t ≤ now
    → IsChannel t c
    → Every (λ k u. Q k (message_of u)) c.unacked_messages
    → Returns
        (λ sent. AllTracked c.channel_id Q sent.packets)
        (get_packets_to_send o c packet_sequence available_bytes now)
unfolding push_slice collect flush
get_packets_to_send-AllTracked o c Q t now s a h v w =
    Returns-map (Ends Noted) (λ sent. AllTracked c.channel_id Q sent.packets)
      (get_packets_to_send o c s a now)
      (get_packets_to_send-Ends o c t now Noted Q
        (λ id i r l b x q k p. (
          AllTracked-append c.channel_id Q l.packets _ p.0
              ((refl, r.message, q, x.long, omega (arith, x.number)), tt),
          p.1,
        ))
        (λ id m size l q k b p. (
          p.0,
          Every-append (λ i n. Q i n × (length n ≤ slice_size)) l.small_messages ((id, m) ∷ []) p.1
              ((q, k), tt),
        ))
        (λ l p. (AllTracked-append c.channel_id Q l.packets _ p.0 ((refl, p.1), tt), tt)) s a h v w
        (tt, tt))
      (λ sent e. rw e.packets e.holds.0)
  where
    Noted : Sending → Type 0
    Noted l =
        AllTracked c.channel_id Q l.packets
        × Every (λ i m. Q i m × (length m ≤ slice_size)) l.small_messages
