-- ===== src/Packet/Runs.antt =====
-- The unit tests of renet2/src/packet.rs over the concrete octets, and the theorems at concrete
-- inputs.
use renet.Base.{ℕ, ◌≡◌, refl, [], ◌∷◌, ◌++◌, arith, length, ok, err, add_u64, sub_u64}
use renet.Packet.{
  Packet, small_reliable, ack, put_packet, put_ack_ranges, put_ranges, to_bytes, from_bytes,
  get_packet, get_messages, get_ack_ranges, get_ranges, buffer_too_short, invalid_ack_range,
}
use renet.Packet.Decoded.{IsDecoded, OnRead, from_bytes-IsDecoded}
use renet.Packet.Quic.{quic, Room}
use renet.Packet.RoundTrip.{IsPacket, from_bytes-to_bytes, to_bytes_short}

abbrev buffer : ℕ → Room
buffer n = record { written = []; left = n }

abbrev acks : Packet
acks = ack 0 (
    record { start = 3; end = 7 }
    ∷ record { start = 10; end = 20 }
    ∷ record { start = 30; end = 100 }
    ∷ [])

abbrev messages : Packet
messages = small_reliable 1000 2 ((0, 7 ∷ 8 ∷ []) ∷ (70, []) ∷ [])

acks_bytes :
    to_bytes quic acks (buffer 1400)
    ≡ ok (record { written = 4 ∷ 0 ∷ 64 ∷ 99 ∷ 64 ∷ 69 ∷ 2 ∷ 9 ∷ 9 ∷ 2 ∷ 3 ∷ []; left = 1389 }, 11)
unfolding to_bytes put_packet put_ack_ranges put_ranges sub_u64
acks_bytes = refl

messages_read :
    from_bytes quic (0 ∷ 67 ∷ 232 ∷ 2 ∷ 0 ∷ 2 ∷ 0 ∷ 2 ∷ 7 ∷ 8 ∷ 64 ∷ 70 ∷ 0 ∷ 5 ∷ [])
    ≡ ok (messages, 5 ∷ [])
unfolding from_bytes get_packet get_messages
messages_read = refl

overlapping : from_bytes quic (4 ∷ 0 ∷ 9 ∷ 2 ∷ 1 ∷ 6 ∷ 0 ∷ []) ≡ err invalid_ack_range
unfolding from_bytes get_packet get_ack_ranges get_ranges sub_u64 add_u64
overlapping = refl

acks-IsPacket : IsPacket acks
acks-IsPacket = (omega arith, (λ e. cc), omega arith)

from_bytes-to_bytes_example :
    (b' : Room) × (n : ℕ) × (to_bytes quic acks (buffer 1400) ≡ ok (b', n))
    × (n ≡ length b'.written)
    × (from_bytes quic (b'.written ++ 1 ∷ []) ≡ ok (acks, 1 ∷ []))
from_bytes-to_bytes_example =
    from_bytes-to_bytes quic acks (buffer 1400) (1 ∷ []) acks-IsPacket refl (omega arith)

to_bytes_short_example : to_bytes quic messages (buffer 5) ≡ err buffer_too_short
to_bytes_short_example = to_bytes_short quic messages (buffer 5) (omega arith) (omega arith)

from_bytes-IsDecoded_example :
    OnRead (λ r. IsDecoded r.0) (from_bytes quic (4 ∷ 0 ∷ 9 ∷ 2 ∷ 1 ∷ 3 ∷ 0 ∷ []))
from_bytes-IsDecoded_example = from_bytes-IsDecoded quic (4 ∷ 0 ∷ 9 ∷ 2 ∷ 1 ∷ 3 ∷ 0 ∷ [])
