-- ===== src/Packet/Written.antt =====
-- The writer panics on no packet but an acknowledgement of no range.
use mathlib.Core.List.{reverse, reverse-cons}
use renet.Base.{ℕ, ◌≢◌, refl, List, [], ◌∷◌, ◌++◌, ◌%◌, length, Option, Result, ◌>>=◌, sub_u64}
use renet.Ack.{AckRange}
use renet.Channel.{Bytes, Slice}
use renet.Packet.Crate.{Octets}
use renet.Packet.Decoded.{OnRead, OnRead-then, OnRead-try}
use renet.Packet.Wire.{
  Packet, SerializationError, small_reliable, small_unreliable, reliable_slice, unreliable_slice,
  ack, try, put_messages, put_payloads, put_slice, put_ranges, put_ack_ranges, put_packet, to_bytes,
}

abbrev pub IsWritable : Packet → Type 0
IsWritable (ack sequence ranges) = ranges ≢ []
IsWritable (small_reliable sequence channel_id messages) = Unit {0}
IsWritable (small_unreliable sequence channel_id messages) = Unit {0}
IsWritable (reliable_slice sequence channel_id slice) = Unit {0}
IsWritable (unreliable_slice sequence channel_id slice) = Unit {0}

module _ (o : Octets) where
  open o use {Buffer, put_u8, put_u16, put_varint, put_bytes}

  abbrev Any : {A : Type 0} → A → Type 0
  Any a = Unit {0}

  then :
      (r : Option Buffer) (f : Buffer → Result SerializationError Buffer)
      → ((b : Buffer) → OnRead Any (f b))
      → OnRead Any (try r >>= f)
  then r f h = OnRead-then Any (try r) f (OnRead-try r) h

  put_messages_returns : (ms : List (ℕ × Bytes)) (b : Buffer) → OnRead Any (put_messages o ms b)
  unfolding put_messages
  put_messages_returns [] b = tt
  put_messages_returns ((id, m) ∷ ms) b = then (put_varint id b) _ (λ x.
      then (put_varint (length m) x) _
        (λ y. then (put_bytes m y) _ (λ z. put_messages_returns ms z)))

  put_payloads_returns : (ms : List Bytes) (b : Buffer) → OnRead Any (put_payloads o ms b)
  unfolding put_payloads
  put_payloads_returns [] b = tt
  put_payloads_returns (m ∷ ms) b =
      then (put_varint (length m) b) _
        (λ y. then (put_bytes m y) _ (λ z. put_payloads_returns ms z))

  put_slice_returns : (s : Slice) (b : Buffer) → OnRead Any (put_slice o s b)
  unfolding put_slice
  put_slice_returns s b = then (put_varint s.message_id b) _ (λ x.
      then (put_varint s.slice_index x) _ (λ y.
        then (put_varint s.num_slices y) _ (λ z.
          then (put_varint (length s.payload) z) _ (λ w. OnRead-try (put_bytes s.payload w)))))

  put_ranges_returns :
      (start : ℕ) (rs : List AckRange) (b : Buffer) → OnRead Any (put_ranges o start rs b)
  unfolding put_ranges
  put_ranges_returns start [] b = tt
  put_ranges_returns start (r ∷ rs) b =
      then (put_varint (sub_u64 (sub_u64 start r.end) 1) b) _ (λ x.
        then (put_varint (sub_u64 (sub_u64 r.end 1) r.start) x) _
          (λ y. put_ranges_returns r.start rs y))

  put_ack_ranges_returns :
      (rs : List AckRange) (b : Buffer) → rs ≢ [] → OnRead Any (put_ack_ranges o rs b)
  unfolding put_ack_ranges
  put_ack_ranges_returns [] b h = absurd (h refl)
  put_ack_ranges_returns (r ∷ rs) b h = then (put_varint (sub_u64 r.end 1) b) _ (λ x.
      then (put_varint (sub_u64 (sub_u64 r.end 1) r.start) x) _
        (λ y. then (put_varint (length rs) y) _ (λ z. put_ranges_returns r.start rs z)))

  put_packet_returns : (p : Packet) (b : Buffer) → IsWritable p → OnRead Any (put_packet o p b)
  unfolding put_packet
  put_packet_returns (small_reliable s id ms) b h = then (put_u8 0 b) _ (λ x.
      then (put_varint s x) _ (λ y.
        then (put_u8 id y) _
          (λ z. then (put_u16 (length ms % 65536) z) _ (λ w. put_messages_returns ms w))))
  put_packet_returns (small_unreliable s id ms) b h = then (put_u8 1 b) _ (λ x.
      then (put_varint s x) _ (λ y.
        then (put_u8 id y) _
          (λ z. then (put_u16 (length ms % 65536) z) _ (λ w. put_payloads_returns ms w))))
  put_packet_returns (reliable_slice s id slice) b h =
      then (put_u8 2 b) _
        (λ x. then (put_varint s x) _ (λ y. then (put_u8 id y) _ (λ z. put_slice_returns slice z)))
  put_packet_returns (unreliable_slice s id slice) b h =
      then (put_u8 3 b) _
        (λ x. then (put_varint s x) _ (λ y. then (put_u8 id y) _ (λ z. put_slice_returns slice z)))
  put_packet_returns (ack s rs) b h =
      then (put_u8 4 b) _
        (λ x. then (put_varint s x) _ (λ y. put_ack_ranges_returns (reverse rs) y (reversed rs h)))
    where
      not_empty : (xs : List AckRange) (r : AckRange) → xs ++ r ∷ [] ≢ []
      not_empty [] r = λ e. cc
      not_empty (x ∷ xs) r = λ e. cc

      reversed : (rs : List AckRange) → rs ≢ [] → reverse rs ≢ []
      reversed [] h = h
      reversed (r ∷ rs) h = rw (reverse-cons r rs) (not_empty (reverse rs) r)

  pub to_bytes_returns : (p : Packet) (b : Buffer) → IsWritable p → OnRead Any (to_bytes o p b)
  unfolding to_bytes
  to_bytes_returns p b h = OnRead-then Any (put_packet o p b) _ (put_packet_returns p b h) (λ c. tt)
