-- ===== src/Packet/RoundTrip.antt =====
-- Every packet that can be sent is read back as it was.
use mathlib.Core.List.{append_assoc, reverse, reverse-reverse}
use renet.Base.{
  ℕ, ◌-◌, ◌%◌, ◌<◌, ◌≤◌, ◌≡◌, ◌≢◌, ◌∙◌, sym, ap, List, [], ◌++◌, arith, length, ok, err, IsVarint,
}
use renet.Ack.Order.{Separated}
use renet.Channel.{Bytes, slice_size}
use renet.Packet.Crate.{Octets}
use renet.Packet.Wire.{
  Packet, small_reliable, small_unreliable, unreliable_slice, reliable_slice, ack, buffer_too_short,
  try, put_packet, to_bytes, get_packet, from_bytes, check_payload,
}
use renet.Packet.Emits.{Emits, try-Emits, bind-Emits}
use renet.Packet.Messages.{
  AreMessages, ArePayloads, IsSlice, wire_messages, wire_payloads, wire_slice, varint-Emits,
  put_messages-Emits, put_payloads-Emits, put_slice-Emits, get_messages-wire, get_payloads-wire,
  get_slice-wire,
}
use renet.Packet.Ranges.{
  Descending-reverse, wire_ack_ranges, put_ack_ranges-Emits, get_ack_ranges-wire,
}

-- What a packet can hold: numbers of the width that they are sent with, at most 65535 messages,
-- slices as the reader accepts them, and acknowledged ranges as `add_pending_ack` keeps them.
abbrev pub IsPacket : Packet → Type 0
IsPacket (small_reliable sequence channel_id messages) =
    IsVarint sequence × (channel_id < 256) × (length messages < 65536) × AreMessages messages
IsPacket (small_unreliable sequence channel_id messages) =
    IsVarint sequence × (channel_id < 256) × (length messages < 65536) × ArePayloads messages
IsPacket (unreliable_slice sequence channel_id slice) =
    IsVarint sequence × (channel_id < 256) × IsSlice slice
IsPacket (reliable_slice sequence channel_id slice) =
    IsVarint sequence
    × (channel_id < 256)
    × IsSlice slice
    × (0 < length slice.payload)
    × (length slice.payload ≤ slice_size)
IsPacket (ack sequence ack_ranges) = IsVarint sequence × (ack_ranges ≢ []) × Separated 0 ack_ranges

reverse-ne_nil {ℓ} : {A : Type ℓ} (xs : List A) → xs ≢ [] → reverse xs ≢ []
reverse-ne_nil xs ne e = ne (sym (reverse-reverse xs) ∙ ap reverse e)

module _ (o : Octets) where
  -- The bytes of a packet.
  abbrev pub wire : Packet → Bytes
  wire (small_reliable sequence channel_id messages) =
      o.u8 0
      ++ (o.varint sequence
          ++ (o.u8 channel_id ++ (o.u16 (length messages) ++ wire_messages o messages)))
  wire (small_unreliable sequence channel_id messages) =
      o.u8 1
      ++ (o.varint sequence
          ++ (o.u8 channel_id ++ (o.u16 (length messages) ++ wire_payloads o messages)))
  wire (reliable_slice sequence channel_id slice) =
      o.u8 2 ++ (o.varint sequence ++ (o.u8 channel_id ++ wire_slice o slice))
  wire (unreliable_slice sequence channel_id slice) =
      o.u8 3 ++ (o.varint sequence ++ (o.u8 channel_id ++ wire_slice o slice))
  wire (ack sequence ack_ranges) =
      o.u8 4 ++ (o.varint sequence ++ wire_ack_ranges o (reverse ack_ranges))

  u8-Emits : (n : ℕ) → Emits o (λ b. try (o.put_u8 n b)) (o.u8 n)
  u8-Emits n = try-Emits o (o.put_u8 n) (o.u8 n) (o.put_u8_writes n)

  u16-Emits : (n : ℕ) → n < 65536 → Emits o (λ b. try (o.put_u16 (n % 65536) b)) (o.u16 n)
  u16-Emits n h =
      let e : n % 65536 ≡ n = omega arith in
      rw e (try-Emits o (o.put_u16 n) (o.u16 n) (o.put_u16_writes n))

  put_packet-Emits : (p : Packet) → IsPacket p → Emits o (put_packet o p) (wire p)
  unfolding put_packet
  put_packet-Emits (small_reliable s c ms) v = bind-Emits o _ _ _ _ (u8-Emits 0) (
      bind-Emits o _ _ _ _ (varint-Emits o s v.0) (
        bind-Emits o _ _ _ _ (u8-Emits c)
          (bind-Emits o _ _ _ _ (u16-Emits (length ms) v.2) (put_messages-Emits o ms v.3))))
  put_packet-Emits (small_unreliable s c ms) v = bind-Emits o _ _ _ _ (u8-Emits 1) (
      bind-Emits o _ _ _ _ (varint-Emits o s v.0) (
        bind-Emits o _ _ _ _ (u8-Emits c)
          (bind-Emits o _ _ _ _ (u16-Emits (length ms) v.2) (put_payloads-Emits o ms v.3))))
  put_packet-Emits (unreliable_slice s c x) v = bind-Emits o _ _ _ _ (u8-Emits 3) (
      bind-Emits o _ _ _ _ (varint-Emits o s v.0)
        (bind-Emits o _ _ _ _ (u8-Emits c) (put_slice-Emits o x v.2)))
  put_packet-Emits (reliable_slice s c x) v = bind-Emits o _ _ _ _ (u8-Emits 2) (
      bind-Emits o _ _ _ _ (varint-Emits o s v.0)
        (bind-Emits o _ _ _ _ (u8-Emits c) (put_slice-Emits o x v.2)))
  put_packet-Emits (ack s rs) v = bind-Emits o _ _ _ _ (u8-Emits 4) (
      bind-Emits o _ _ _ _ (varint-Emits o s v.0)
        (put_ack_ranges-Emits o (reverse rs) (reverse-ne_nil rs v.1) (Descending-reverse 0 rs v.2)))

  get_packet-wire :
      (p : Packet) (rest : Bytes) → IsPacket p → from_bytes o (wire p ++ rest) ≡ ok (p, rest)
  unfolding from_bytes get_packet check_payload
  get_packet-wire (small_reliable s c ms) rest v = simp append_assoc (
      rw (o.get_u8_reads 0 _ (omega arith)) (
        rw (o.get_varint_reads s _ v.0) (
          rw (o.get_u8_reads c _ v.1)
            (rw (o.get_u16_reads (length ms) _ v.2) (rw (get_messages-wire o ms rest v.3))))))
  get_packet-wire (small_unreliable s c ms) rest v = simp append_assoc (
      rw (o.get_u8_reads 1 _ (omega arith)) (
        rw (o.get_varint_reads s _ v.0) (
          rw (o.get_u8_reads c _ v.1)
            (rw (o.get_u16_reads (length ms) _ v.2) (rw (get_payloads-wire o ms rest v.3))))))
  get_packet-wire (unreliable_slice s c x) rest v =
      rw (append_assoc, append_assoc, append_assoc)
        (rw (o.get_u8_reads 3 _ (omega arith)) (
          rw (o.get_varint_reads s _ v.0)
            (rw (o.get_u8_reads c _ v.1) (rw (get_slice-wire o x rest v.2)))))
  get_packet-wire (reliable_slice s c x) rest v =
      rw (append_assoc, append_assoc, append_assoc)
        (rw (o.get_u8_reads 2 _ (omega arith)) (
          rw (o.get_varint_reads s _ v.0) (
            rw (o.get_u8_reads c _ v.1)
              (rw (get_slice-wire o x rest v.2) (ground (arith, v.3, v.4))))))
  get_packet-wire (ack s rs) rest v =
      rw (append_assoc, append_assoc)
        (rw (o.get_u8_reads 4 _ (omega arith)) (
          rw (o.get_varint_reads s _ v.0) (
            rw
              (get_ack_ranges-wire o (reverse rs) rest (reverse-ne_nil rs v.1)
                (Descending-reverse 0 rs v.2))
              (rw (reverse-reverse rs)))))

  -- A packet written to an empty buffer with room for it is written whole, its length is returned,
  -- and the reader takes the written bytes back to the same packet, whatever stands behind them.
  -- The packet is one that can be sent: its numbers are of the width they are sent with
  -- (sequence, ids, indexes and lengths below 2 ^ 62, channel id below 256), it has at most 65535 messages or
  -- one slice of a message of 1 to 1,000,000 slices, a reliable slice has 1 to 1200 bytes, and
  -- acknowledged ranges are at least one, not empty, within 2 ^ 62, ascending and apart.
  pub from_bytes-to_bytes :
      (p : Packet) (b : o.Buffer) (rest : Bytes)
      → IsPacket p
      → o.contents b ≡ []
      → length (wire p) ≤ o.cap b
      → (b' : o.Buffer) × (n : ℕ) × (to_bytes o p b ≡ ok (b', n))
        × (n ≡ length (o.contents b'))
        × (from_bytes o (o.contents b' ++ rest) ≡ ok (p, rest))
  unfolding to_bytes
  from_bytes-to_bytes p b rest v e h =
      let (b', r, c, d) = (put_packet-Emits p v b).1 h in
      let c' : o.contents b' ≡ wire p = c ∙ ap (λ (xs : Bytes). xs ++ wire p) e in
      (
        b',
        o.cap b - o.cap b',
        rw r,
        omega (arith, d, ap length c'),
        rw c' (get_packet-wire p rest v),
      )

  -- A packet that does not fit is refused, and with `BufferTooShort`.
  -- The packet is one that can be sent: its numbers are of the width they are sent with
  -- (sequence, ids, indexes and lengths below 2 ^ 62, channel id below 256), it has at most 65535 messages or
  -- one slice of a message of 1 to 1,000,000 slices, a reliable slice has 1 to 1200 bytes, and
  -- acknowledged ranges are at least one, not empty, within 2 ^ 62, ascending and apart.
  pub to_bytes_short :
      (p : Packet) (b : o.Buffer)
      → IsPacket p
      → o.cap b < length (wire p)
      → to_bytes o p b ≡ err buffer_too_short
  unfolding to_bytes
  to_bytes_short p b v h = rw ((put_packet-Emits p v b).0 h)
