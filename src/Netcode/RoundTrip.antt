-- ===== src/Netcode/RoundTrip.antt =====
-- A packet that is encoded is decoded to itself.
use mathlib.Core.List.{append_assoc}
use renet.Base.{
  ℕ, zero, suc, ◌+◌, ◌-◌, ◌*◌, ◌/◌, ◌%◌, ◌≤◌, ◌≡◌, refl, sym, ap, ◌∙◌, false, List, [], ◌∷◌, ◌++◌,
  ltb, length, length-append, take, ok, arith,
}
use renet.Channel.{Bytes}
use renet.Netcode.Bytes.{
  le_bytes, sequence_bytes_required, IsWord, from_le-le_bytes, length-le_bytes, take-le_bytes,
  bytes_required_bound, bytes_required-IsWord, write, read_exact-append, write_all-ok,
}
use renet.Netcode.Wire.{
  PacketType, Packet, of_u8, packet_type, id_of, write_parts, parts, read_number, read_packet,
  write_sequence, read_sequence, is_request, is_request_type,
}

-- Arrays of their lengths, and numbers of their widths.
abbrev pub IsPacket : Packet → Type 0
IsPacket (Packet.connection_request version protocol_id expire_timestamp xnonce private_data) =
    (length version ≡ 13)
    × IsWord 8 protocol_id
    × IsWord 8 expire_timestamp
    × (length xnonce ≡ 24)
    × (length private_data ≡ 1024)
IsPacket (Packet.challenge token_sequence token_data) =
    IsWord 8 token_sequence × (length token_data ≡ 300)
IsPacket (Packet.response token_sequence token_data) =
    IsWord 8 token_sequence × (length token_data ≡ 300)
IsPacket (Packet.keep_alive client_index max_clients) = IsWord 4 client_index × IsWord 4 max_clients
IsPacket (Packet.payload p) = Unit {0}
IsPacket Packet.connection_denied = Unit {0}
IsPacket Packet.disconnect = Unit {0}

abbrev pub contents : List Bytes → Bytes
contents [] = []
contents (part ∷ rest) = part ++ contents rest

append_nil : (xs : Bytes) → xs ++ [] ≡ xs
append_nil [] = refl
append_nil (x ∷ xs) = ap (λ ys. x ∷ ys) (append_nil xs)

take_all : (k : ℕ) (xs : Bytes) → length xs ≤ k → take k xs ≡ xs
take_all zero [] h = refl
take_all zero (x ∷ xs) h = elim h [ ]
take_all (suc k) [] h = refl
take_all (suc k) (x ∷ xs) h = ap (λ ys. x ∷ ys) (take_all k xs (omega arith))

pub write_parts-contents :
    (cap : ℕ) (ps : List Bytes) (written : Bytes)
    → length written + length (contents ps) ≤ cap
    → write_parts cap ps written ≡ ok (written ++ contents ps)
write_parts-contents cap [] written h = ap ok (sym (append_nil written))
write_parts-contents cap (p ∷ ps) written h =
    let now : length written + length p ≤ cap = omega (arith, length-append p (contents ps)) in
    rw (write_all-ok cap p written now) (
      write_parts-contents cap ps (written ++ p)
        (omega (arith, length-append p (contents ps), length-append written p))
      ∙ ap ok (append_assoc written p (contents ps)))

pub read_number-le_bytes :
    (k n : ℕ) (rest : Bytes) → IsWord k n → read_number k (le_bytes k n ++ rest) ≡ ok (n, rest)
unfolding read_number
read_number-le_bytes k n rest h =
    rw (read_exact-append k (le_bytes k n) rest (length-le_bytes k n))
      (rw (from_le-le_bytes k n h) refl)

pub read_packet-contents :
    (p : Packet) → IsPacket p → read_packet (packet_type p) (contents (parts p)) ≡ ok p
unfolding read_packet
read_packet-contents
      (Packet.connection_request version protocol_id expire_timestamp xnonce private_data)
      (a, b, c, d, e) =
    rw (read_exact-append 13 version _ a) (
      rw (read_number-le_bytes 8 protocol_id _ b) (
        rw (read_number-le_bytes 8 expire_timestamp _ c) (
          rw (read_exact-append 24 xnonce _ d)
            (rw (read_exact-append 1024 private_data [] e) refl))))
read_packet-contents (Packet.challenge token_sequence token_data) (a, b) =
    rw (read_number-le_bytes 8 token_sequence _ a) (rw (read_exact-append 300 token_data [] b) refl)
read_packet-contents (Packet.response token_sequence token_data) (a, b) =
    rw (read_number-le_bytes 8 token_sequence _ a) (rw (read_exact-append 300 token_data [] b) refl)
read_packet-contents (Packet.keep_alive client_index max_clients) (a, b) =
    rw (read_number-le_bytes 4 client_index _ a) (rw (read_number-le_bytes 4 max_clients [] b) refl)
read_packet-contents (Packet.payload p) h = ap (λ x. ok (Packet.payload x)) (append_nil p)
read_packet-contents Packet.connection_denied h = refl
read_packet-contents Packet.disconnect h = refl

pub of_u8-id_of : (t : PacketType) (n : ℕ) → of_u8 ((id_of t + 16 * n) % 16) ≡ ok t
of_u8-id_of t n = rw (low t) (known t)
  where
    low : (t : PacketType) → (id_of t + 16 * n) % 16 ≡ id_of t
    low PacketType.connection_request = omega arith
    low PacketType.connection_denied = omega arith
    low PacketType.challenge = omega arith
    low PacketType.response = omega arith
    low PacketType.keep_alive = omega arith
    low PacketType.payload = omega arith
    low PacketType.disconnect = omega arith

    known : (t : PacketType) → of_u8 (id_of t) ≡ ok t
    known PacketType.connection_request = refl
    known PacketType.connection_denied = refl
    known PacketType.challenge = refl
    known PacketType.response = refl
    known PacketType.keep_alive = refl
    known PacketType.payload = refl
    known PacketType.disconnect = refl

pub high : (t : PacketType) (n : ℕ) → (id_of t + 16 * n) / 16 ≡ n
high PacketType.connection_request n = omega arith
high PacketType.connection_denied n = omega arith
high PacketType.challenge n = omega arith
high PacketType.response n = omega arith
high PacketType.keep_alive n = omega arith
high PacketType.payload n = omega arith
high PacketType.disconnect n = omega arith

pub is_request_type-packet_type : (p : Packet) → is_request_type (packet_type p) ≡ is_request p
is_request_type-packet_type
      (Packet.connection_request version protocol_id expire_timestamp xnonce private_data) =
    refl
is_request_type-packet_type Packet.connection_denied = refl
is_request_type-packet_type (Packet.challenge token_sequence token_data) = refl
is_request_type-packet_type (Packet.response token_sequence token_data) = refl
is_request_type-packet_type (Packet.keep_alive client_index max_clients) = refl
is_request_type-packet_type (Packet.payload p) = refl
is_request_type-packet_type Packet.disconnect = refl

pub write_sequence-le_bytes :
    (cap sequence : ℕ) (first : Bytes)
    → length first + sequence_bytes_required sequence ≤ cap
    → write_sequence cap sequence first
      ≡ first ++ le_bytes (sequence_bytes_required sequence) sequence
unfolding write_sequence write sequence_bytes_required
write_sequence-le_bytes cap sequence first h =
    let n = sequence_bytes_required sequence in
    ap (λ bs. first ++ take (cap - length first) bs)
      (take-le_bytes n 8 sequence (bytes_required_bound 8 sequence))
    ∙ ap (λ bs. first ++ bs)
        (take_all (cap - length first) (le_bytes n sequence)
          (omega (arith, length-le_bytes n sequence)))

pub read_sequence-le_bytes :
    (sequence : ℕ) (rest : Bytes)
    → IsWord 8 sequence
    → read_sequence
        (sequence_bytes_required sequence)
        (le_bytes (sequence_bytes_required sequence) sequence ++ rest)
      ≡ ok (sequence, rest)
unfolding read_sequence sequence_bytes_required
read_sequence-le_bytes sequence rest h =
    let few : ltb 8 (sequence_bytes_required sequence) ≡ false =
      ground (arith, bytes_required_bound 8 sequence) in
    rw few (
      read_number-le_bytes (sequence_bytes_required sequence) sequence rest
        (bytes_required-IsWord 8 sequence h))
