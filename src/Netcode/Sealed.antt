-- ===== src/Netcode/Sealed.antt =====
-- `encode` and `decode`, one after the other.
use mathlib.Core.List.{append_assoc}
use renet.Base.{
  ℕ, ◌+◌, ◌-◌, ◌≤◌, ◌≡◌, refl, ap, ◌∙◌, Bool, true, false, Bool-cases, inl, inr, List, [], ◌∷◌,
  ◌++◌, Option, some, ltb, ◌==◌, if◌then◌else◌, length, length-append, length-take, length-drop,
  take, drop, take-append, drop-append, ok, err, arith,
}
use renet.Channel.{Bytes}
use renet.Netcode.Bytes.{
  packet_too_small, le_bytes, sequence_bytes_required, IsWord, from_le-le_bytes, length-le_bytes,
  write_all-ok,
}
use renet.Netcode.Cipher.{Cipher}
use renet.Netcode.RoundTrip.{
  IsPacket, contents, write_parts-contents, read_packet-contents, of_u8-id_of, high,
  is_request_type-packet_type, write_sequence-le_bytes, read_sequence-le_bytes,
}
use renet.Netcode.Wire.{
  Packet, mac_bytes, tag_bytes, packet_type, id_of, parts, write_packet, encode_prefix,
  decode_prefix, additional_data, seal, is_request, encode, open_body, without_mac, is_duplicate,
  advance, decode_protected, is_request_type, decode_typed, decode,
}
use renet.Replay.{ReplayProtection}

-- The cipher encrypts the bytes, where encryption is asked for.
abbrev pub Encrypts : Cipher → Bool → Bytes → ℕ → Bytes → Bytes → Type 0
Encrypts cipher true key sequence aad plain =
    (text : Bytes) × (tag : Bytes) × (cipher.encrypt key sequence aad plain ≡ some (text, tag))
Encrypts cipher false key sequence aad plain = Unit {0}

module _ (cipher : Cipher) (buffer : Bytes) (protocol_id sequence : ℕ) (key : Bytes)
    (prefix : ℕ) where
  -- What follows the sequence, and what it is opened to: the content and 16 bytes.
  record IsSealed (encrypted : Bool) (front content : Bytes) : Type 0 where
    body : Bytes
    tail : Bytes
    sealed :
        seal cipher buffer protocol_id sequence key encrypted front (front ++ content) prefix
        ≡ ok (front ++ body)
    opens : open_body cipher protocol_id sequence key prefix encrypted body ≡ ok (content ++ tail)
    body_length : length body ≡ length content + 16
    tail_length : length tail ≡ 16

  seal-IsSealed :
      (encrypted : Bool) (front content : Bytes)
      → length front + length content + 16 ≤ length buffer
      → IsWord 8 protocol_id
      → Encrypts cipher encrypted key sequence (additional_data prefix protocol_id) content
      → IsSealed encrypted front content
  unfolding seal open_body
  seal-IsSealed true front content h w (text, tag, e) =
      let room : ltb (length buffer) (length (front ++ content) + mac_bytes) ≡ false =
        ground (arith, length-append front content) in
      let same : length text ≡ length content =
        cipher.same_length key sequence (additional_data prefix protocol_id) content text tag e in
      let of_tag : length tag ≡ 16 =
        cipher.tag_length key sequence (additional_data prefix protocol_id) content text tag e in
      let long : ltb (length (text ++ tag)) mac_bytes ≡ false =
        ground (arith, length-append text tag) in
      let cut : length (text ++ tag) - 16 ≡ length text = omega (arith, length-append text tag) in
      record {
        body = text ++ tag;
        tail = tag;
        sealed = rw (room, drop-append front content, e) (ap ok (append_assoc front text tag));
        opens =
            rw (long, cut, take-append text tag, drop-append text tag)
              (rw
                (cipher.opens key sequence (additional_data prefix protocol_id) content text tag e)
                refl);
        body_length = omega (arith, length-append text tag);
        tail_length = of_tag;
      }
  seal-IsSealed false front content h w u =
      let room : ltb (length buffer) (length (front ++ content) + mac_bytes) ≡ false =
        ground (arith, length-append front content) in
      let kept : Bytes = take 8 (drop (length (front ++ content)) buffer) in
      let mark : Bytes = le_bytes 8 protocol_id in
      let of_mark : length mark ≡ 8 = length-le_bytes 8 protocol_id in
      let of_kept : length kept ≡ 8 = ground (
        arith,
        length-take 8 (drop (length (front ++ content)) buffer),
        length-drop (length (front ++ content)) buffer,
        length-append front content,
      ) in
      let itself : (protocol_id == protocol_id) ≡ true = ground arith in
      let whole : length ((content ++ kept) ++ mark) ≡ length content + 16 =
        omega (arith, length-append (content ++ kept) mark, length-append content kept) in
      let long : ltb (length ((content ++ kept) ++ mark)) tag_bytes ≡ false =
        ground (arith, whole) in
      let cut : length ((content ++ kept) ++ mark) - 8 ≡ length (content ++ kept) =
        omega (arith, whole, length-append content kept) in
      record {
        body = (content ++ kept) ++ mark;
        tail = kept ++ mark;
        sealed = rw room (
            ap (λ bs. ok (bs ++ mark)) (append_assoc front content kept)
            ∙ ap ok (append_assoc front (content ++ kept) mark));
        opens =
            rw
              (
                long,
                cut,
                drop-append (content ++ kept) mark,
                from_le-le_bytes 8 protocol_id w,
                itself,
              )
              (ap ok (append_assoc content kept mark));
        body_length = whole;
        tail_length = omega (arith, length-append kept mark);
      }

module _ (cipher : Cipher) (protocol_id sequence : ℕ) (key : Bytes) (packet : Packet) where
  abbrev front : Bytes
  front =
      encode_prefix (id_of (packet_type packet)) sequence
      ∷ le_bytes (sequence_bytes_required sequence) sequence

  abbrev content : Bytes
  content = contents (parts packet)

  encode-sealed :
      (buffer : Bytes) (encrypted : Bool)
      → is_request packet ≡ false
      → length front + length content + 16 ≤ length buffer
      → (s : IsSealed cipher buffer protocol_id sequence key
          (encode_prefix (id_of (packet_type packet)) sequence)
          encrypted
          front
          content)
      → encode cipher packet buffer protocol_id (some (sequence, key)) encrypted
        ≡ ok (front ++ s.body)
  unfolding encode write_packet
  encode-sealed buffer encrypted q h s =
      let first : List ℕ = encode_prefix (id_of (packet_type packet)) sequence ∷ [] in
      let size : length (le_bytes (sequence_bytes_required sequence) sequence)
          ≡ sequence_bytes_required sequence =
        length-le_bytes (sequence_bytes_required sequence) sequence in
      rw (q, encode)
        (rw (write_all-ok (length buffer) first [] (omega arith)) (
          rw (write_sequence-le_bytes (length buffer) sequence first (omega (arith, size))) (
            rw (write_parts-contents (length buffer) (parts packet) front (omega arith)) s.sealed)))

  decode-sealed :
      (replay : Option ReplayProtection) (encrypted : Bool) (body tail : Bytes)
      → is_request packet ≡ false
      → IsPacket packet
      → IsWord 8 sequence
      → is_duplicate (packet_type packet) replay sequence ≡ false
      → open_body cipher protocol_id sequence key
          (encode_prefix (id_of (packet_type packet)) sequence)
          encrypted
          body
        ≡ ok (content ++ tail)
      → length body ≡ length content + 16
      → length tail ≡ 16
      → decode cipher (front ++ body) protocol_id (some key) replay encrypted ≡ (
          if sequence_bytes_required sequence + length content == 0
          then (replay, err packet_too_small)
          else (advance (packet_type packet) replay sequence, ok (sequence, packet)))
  unfolding decode decode_typed decode_protected decode_prefix encode_prefix without_mac
  decode-sealed replay encrypted body tail q v w d opens size of_tail =
      let n = sequence_bytes_required sequence in
      let total : length (front ++ body) ≡ 17 + n + length content =
        omega (arith, length-append front body, length-le_bytes n sequence) in
      let request : is_request_type (packet_type packet) ≡ false =
        is_request_type-packet_type packet ∙ q in
      elim (Bool-cases (n + length content == 0)) [
        | inl e ↦
            let short : ltb (length (front ++ body)) (2 + mac_bytes) ≡ true =
              ground (arith, total) in
            rw (short, decode, e) refl
        | inr e ↦
            let long : ltb (length (front ++ body)) (2 + mac_bytes) ≡ false =
              ground (arith, total) in
            let whole : ltb (length (content ++ tail)) mac_bytes ≡ false =
              ground (arith, length-append content tail) in
            let cut : length (content ++ tail) - 16 ≡ length content =
              omega (arith, length-append content tail) in
            rw (long, decode, e)
              (rw (of_u8-id_of (packet_type packet) n, decode_typed)
                (rw (request, high (packet_type packet) n, read_sequence-le_bytes sequence body w)
                  (rw (d, opens)
                    (rw (whole, cut, take-append content tail)
                      (rw (read_packet-contents packet v) refl)))))
      ]

  -- A packet other than a connection request, with arrays and numbers of their widths, that the
  -- buffer has room for, and that the cipher encrypts where that is asked for: `encode` writes it, and
  -- `decode` with the same key gives back its sequence and the packet, and advances the replay
  -- protection where that has not seen the sequence. The one exception is a packet with no content
  -- and the sequence 0: that is refused as too small.
  pub decode-encode :
      (buffer : Bytes) (replay : Option ReplayProtection) (encrypted : Bool)
      → is_request packet ≡ false
      → IsPacket packet
      → IsWord 8 sequence
      → IsWord 8 protocol_id
      → length front + length content + 16 ≤ length buffer
      → Encrypts cipher encrypted key sequence
          (additional_data (encode_prefix (id_of (packet_type packet)) sequence) protocol_id)
          content
      → is_duplicate (packet_type packet) replay sequence ≡ false
      → (bytes : Bytes) × (encode cipher packet buffer protocol_id (some (sequence, key)) encrypted
          ≡ ok bytes)
        × (decode cipher bytes protocol_id (some key) replay encrypted ≡ (
            if sequence_bytes_required sequence + length content == 0
            then (replay, err packet_too_small)
            else (advance (packet_type packet) replay sequence, ok (sequence, packet))))
  decode-encode buffer replay encrypted q v w u h e d =
      let s : IsSealed cipher buffer protocol_id sequence key
          (encode_prefix (id_of (packet_type packet)) sequence) encrypted front content =
        seal-IsSealed cipher buffer protocol_id sequence key
          (encode_prefix (id_of (packet_type packet)) sequence) encrypted front content h u e in
      (
        front ++ s.body,
        encode-sealed buffer encrypted q h s,
        decode-sealed replay encrypted s.body s.tail q v w d s.opens s.body_length s.tail_length,
      )
