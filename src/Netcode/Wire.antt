-- ===== src/Netcode/Wire.antt =====
-- `Packet`, `encode` and `decode`. A buffer is the list of its bytes; what `encode` gives is the front
-- of the buffer that it has filled.
use renet.Base.{
  ℕ, ◌+◌, ◌-◌, ◌*◌, ◌/◌, ◌%◌, Bool, true, false, ◌&&◌, List, [], ◌∷◌, ◌++◌, Option, none, some, ltb,
  ◌==◌, if◌then◌else◌, length, take, drop, Result, ok, err, panic, ◌>>=◌,
}
use renet.Channel.{Bytes}
use renet.Netcode.Bytes.{
  NetcodeError, packet_too_small, invalid_packet_type, unavailable_private_key, duplicated_sequence,
  crypto_error, io_error, le_bytes, from_le, sequence_bytes_required, write_all, write, read_exact,
}
use renet.Netcode.Cipher.{Cipher}
use renet.Replay.{ReplayProtection, already_received, advance_sequence}

pub data PacketType : Type 0 where
  connection_request connection_denied challenge response keep_alive payload disconnect : PacketType

-- The arrays are lists of bytes.
pub data Packet : Type 0 where
  connection_request : Bytes → ℕ → ℕ → Bytes → Bytes → Packet
  connection_denied : Packet
  challenge response : ℕ → Bytes → Packet
  keep_alive : ℕ → ℕ → Packet
  payload : Bytes → Packet
  disconnect : Packet

-- "NETCODE 1.a2" with a null terminator.
abbrev pub version_info : Bytes
version_info = 78 ∷ 69 ∷ 84 ∷ 67 ∷ 79 ∷ 68 ∷ 69 ∷ 32 ∷ 49 ∷ 46 ∷ 97 ∷ 50 ∷ 0 ∷ []

abbrev pub mac_bytes : ℕ
mac_bytes = 16

abbrev pub tag_bytes : ℕ
tag_bytes = 8

abbrev pub of_u8 : ℕ → Result NetcodeError PacketType
of_u8 value =
    if value == 0
    then ok PacketType.connection_request
    else if value == 1
    then ok PacketType.connection_denied
    else if value == 2
    then ok PacketType.challenge
    else if value == 3
    then ok PacketType.response
    else if value == 4
    then ok PacketType.keep_alive
    else if value == 5
    then ok PacketType.payload
    else if value == 6
    then ok PacketType.disconnect
    else err invalid_packet_type

abbrev pub apply_replay_protection : PacketType → Bool
apply_replay_protection PacketType.keep_alive = true
apply_replay_protection PacketType.payload = true
apply_replay_protection PacketType.disconnect = true
apply_replay_protection PacketType.connection_request = false
apply_replay_protection PacketType.connection_denied = false
apply_replay_protection PacketType.challenge = false
apply_replay_protection PacketType.response = false

abbrev pub packet_type : Packet → PacketType
packet_type (Packet.connection_request version protocol_id expire_timestamp xnonce private_data) =
    PacketType.connection_request
packet_type Packet.connection_denied = PacketType.connection_denied
packet_type (Packet.challenge token_sequence token_data) = PacketType.challenge
packet_type (Packet.response token_sequence token_data) = PacketType.response
packet_type (Packet.keep_alive client_index max_clients) = PacketType.keep_alive
packet_type (Packet.payload p) = PacketType.payload
packet_type Packet.disconnect = PacketType.disconnect

-- The discriminant.
abbrev pub id_of : PacketType → ℕ
id_of PacketType.connection_request = 0
id_of PacketType.connection_denied = 1
id_of PacketType.challenge = 2
id_of PacketType.response = 3
id_of PacketType.keep_alive = 4
id_of PacketType.payload = 5
id_of PacketType.disconnect = 6

abbrev pub write_parts : ℕ → List Bytes → Bytes → Result NetcodeError Bytes
write_parts cap [] written = ok written
write_parts cap (part ∷ rest) written = write_all cap part written >>= λ w. write_parts cap rest w

-- What `write` puts out one after the other.
abbrev pub parts : Packet → List Bytes
parts (Packet.connection_request version protocol_id expire_timestamp xnonce private_data) =
    version ∷ le_bytes 8 protocol_id ∷ le_bytes 8 expire_timestamp ∷ xnonce ∷ private_data ∷ []
parts Packet.connection_denied = []
parts (Packet.challenge token_sequence token_data) = le_bytes 8 token_sequence ∷ token_data ∷ []
parts (Packet.response token_sequence token_data) = le_bytes 8 token_sequence ∷ token_data ∷ []
parts (Packet.keep_alive client_index max_clients) =
    le_bytes 4 client_index ∷ le_bytes 4 max_clients ∷ []
parts (Packet.payload p) = p ∷ []
parts Packet.disconnect = []

-- `Packet::write`
unfoldable pub write_packet : ℕ → Packet → Bytes → Result NetcodeError Bytes
write_packet cap packet written = write_parts cap (parts packet) written

-- `read_u64`, `read_u32`
unfoldable pub read_number : ℕ → Bytes → Result NetcodeError (ℕ × Bytes)
read_number n src = read_exact n src >>= λ r. ok (from_le r.0, r.1)

-- `Packet::read`
unfoldable pub read_packet : PacketType → Bytes → Result NetcodeError Packet
read_packet PacketType.payload src = ok (Packet.payload src)
read_packet PacketType.connection_request src = do
  (version, src) ← read_exact 13 src
  (protocol_id, src) ← read_number 8 src
  (expire_timestamp, src) ← read_number 8 src
  (xnonce, src) ← read_exact 24 src
  (private_data, src) ← read_exact 1024 src
  ok (Packet.connection_request version protocol_id expire_timestamp xnonce private_data)
read_packet PacketType.challenge src = do
  (token_sequence, src) ← read_number 8 src
  (token_data, src) ← read_exact 300 src
  ok (Packet.challenge token_sequence token_data)
read_packet PacketType.response src = do
  (token_sequence, src) ← read_number 8 src
  (token_data, src) ← read_exact 300 src
  ok (Packet.response token_sequence token_data)
read_packet PacketType.keep_alive src = do
  (client_index, src) ← read_number 4 src
  (max_clients, src) ← read_number 4 src
  ok (Packet.keep_alive client_index max_clients)
read_packet PacketType.connection_denied src = ok Packet.connection_denied
read_packet PacketType.disconnect src = ok Packet.disconnect

-- `value | (bytes << 4)`, for a value below 16.
unfoldable pub encode_prefix : ℕ → ℕ → ℕ
encode_prefix value sequence = value + 16 * sequence_bytes_required sequence

unfoldable pub decode_prefix : ℕ → ℕ × ℕ
decode_prefix value = (value % 16, value / 16)

unfoldable pub write_sequence : ℕ → ℕ → Bytes → Bytes
write_sequence cap sequence written =
    write cap (take (sequence_bytes_required sequence) (le_bytes 8 sequence)) written

-- `seq_scratch[0..len]` panics above 8 bytes; the bytes that are not read are 0.
unfoldable pub read_sequence : ℕ → Bytes → Result NetcodeError (ℕ × Bytes)
read_sequence len src = if ltb 8 len then panic else read_number len src

unfoldable pub additional_data : ℕ → ℕ → Bytes
additional_data prefix protocol_id = version_info ++ le_bytes 8 protocol_id ++ prefix ∷ []

abbrev pub put_tag : Bytes → Option (Bytes × Bytes) → Result NetcodeError Bytes
put_tag front none = err crypto_error
put_tag front (some (text, tag)) = ok (front ++ text ++ tag)

-- After the prefix and the sequence: the packet, encrypted or marked with the protocol id. Between
-- a packet and its mark 8 bytes of the buffer stay as they are.
unfoldable pub seal :
    Cipher → Bytes → ℕ → ℕ → Bytes → Bool → Bytes → Bytes → ℕ → Result NetcodeError Bytes
seal cipher buffer protocol_id sequence private_key encrypted front written prefix =
    let end = length written in
    if ltb (length buffer) (end + mac_bytes)
    then err io_error
    else if encrypted
    then put_tag front (
        cipher.encrypt private_key sequence (additional_data prefix protocol_id)
          (drop (length front) written))
    else ok (written ++ take (mac_bytes - tag_bytes) (drop end buffer) ++ le_bytes 8 protocol_id)

abbrev pub is_request : Packet → Bool
is_request (Packet.connection_request version protocol_id expire_timestamp xnonce private_data) =
    true
is_request Packet.connection_denied = false
is_request (Packet.challenge token_sequence token_data) = false
is_request (Packet.response token_sequence token_data) = false
is_request (Packet.keep_alive client_index max_clients) = false
is_request (Packet.payload p) = false
is_request Packet.disconnect = false

unfoldable pub encode :
    Cipher → Packet → Bytes → ℕ → Option (ℕ × Bytes) → Bool → Result NetcodeError Bytes
encode cipher packet buffer protocol_id crypto_info encrypted =
    let cap = length buffer in
    if is_request packet
    then (do
      written ← write_all cap (encode_prefix (id_of (packet_type packet)) 0 ∷ []) []
      write_packet cap packet written)
    else elim crypto_info [
      | none ↦ err unavailable_private_key
      | some (sequence, private_key) ↦
          let prefix = encode_prefix (id_of (packet_type packet)) sequence in
          write_all cap (prefix ∷ []) [] >>= λ first.
          let front = write_sequence cap sequence first in
          write_packet cap packet front >>= λ written.
          seal cipher buffer protocol_id sequence private_key encrypted front written prefix
    ]

abbrev pub opened : Bytes → Option Bytes → Result NetcodeError Bytes
opened tag none = err crypto_error
opened tag (some plain) = ok (plain ++ tag)

-- The buffer behind the sequence, decrypted or with its mark checked. `split_at` panics where the
-- bytes are fewer than those of the tag.
unfoldable pub open_body : Cipher → ℕ → ℕ → Bytes → ℕ → Bool → Bytes → Result NetcodeError Bytes
open_body cipher protocol_id sequence private_key prefix encrypted body =
    if encrypted
    then (if ltb (length body) mac_bytes
        then panic
        else (let text = take (length body - mac_bytes) body in
            let tag = drop (length body - mac_bytes) body in
            opened tag
              (cipher.decrypt private_key sequence (additional_data prefix protocol_id) text tag)))
    else if ltb (length body) tag_bytes
    then panic
    else if from_le (drop (length body - tag_bytes) body) == protocol_id
    then ok body
    else err crypto_error

-- `&buffer[read_pos..buffer.len() - NETCODE_MAC_BYTES]`, of the bytes from `read_pos` on.
unfoldable pub without_mac : Bytes → Result NetcodeError Bytes
without_mac body =
    if ltb (length body) mac_bytes then panic else ok (take (length body - mac_bytes) body)

abbrev pub is_duplicate : PacketType → Option ReplayProtection → ℕ → Bool
is_duplicate type none sequence = false
is_duplicate type (some replay) sequence =
    apply_replay_protection type && already_received replay sequence

abbrev pub advance : PacketType → Option ReplayProtection → ℕ → Option ReplayProtection
advance type none sequence = none
advance type (some replay) sequence =
    if apply_replay_protection type then some (advance_sequence replay sequence) else some replay

-- The replay protection as it is left, and the outcome.
abbrev pub Decoded : Type 0
Decoded = Option ReplayProtection × Result NetcodeError (ℕ × Packet)

-- After a body that is authentic.
abbrev pub accept : PacketType → Option ReplayProtection → ℕ → Result NetcodeError Bytes → Decoded
accept type replay sequence (ok body) = (
  advance type replay sequence,
  without_mac body >>= λ src. read_packet type src >>= λ packet. ok (sequence, packet),
)
accept type replay sequence (err e) = (replay, err e)
accept type replay sequence panic = (replay, panic)

unfoldable pub decode_protected :
    Cipher
    → ℕ
    → Bytes
    → Option ReplayProtection
    → Bool
    → PacketType
    → ℕ
    → Result NetcodeError (ℕ × Bytes)
    → Decoded
decode_protected cipher protocol_id private_key replay encrypted type prefix (ok (sequence, body)) =
    if is_duplicate type replay sequence
    then (replay, err duplicated_sequence)
    else accept type replay sequence
        (open_body cipher protocol_id sequence private_key prefix encrypted body)
decode_protected cipher protocol_id private_key replay encrypted type prefix (err e) =
    (replay, err e)
decode_protected cipher protocol_id private_key replay encrypted type prefix panic = (replay, panic)

abbrev pub is_request_type : PacketType → Bool
is_request_type PacketType.connection_request = true
is_request_type PacketType.connection_denied = false
is_request_type PacketType.challenge = false
is_request_type PacketType.response = false
is_request_type PacketType.keep_alive = false
is_request_type PacketType.payload = false
is_request_type PacketType.disconnect = false

-- By the type that the prefix gives.
unfoldable pub decode_typed :
    Cipher
    → ℕ
    → Option Bytes
    → Option ReplayProtection
    → Bool
    → ℕ
    → Bytes
    → Result NetcodeError PacketType
    → Decoded
decode_typed cipher protocol_id private_key replay encrypted prefix rest (ok type) =
    if is_request_type type
    then (replay, read_packet type rest >>= λ packet. ok (0, packet))
    else elim private_key [
      | some key ↦
          decode_protected cipher protocol_id key replay encrypted type prefix
            (read_sequence (decode_prefix prefix).1 rest)
      | none ↦ (replay, err unavailable_private_key)
    ]
decode_typed cipher protocol_id private_key replay encrypted prefix rest (err e) = (replay, err e)
decode_typed cipher protocol_id private_key replay encrypted prefix rest panic = (replay, panic)

unfoldable pub decode : Cipher → Bytes → ℕ → Option Bytes → Option ReplayProtection → Bool → Decoded
decode cipher [] protocol_id private_key replay encrypted = (replay, err packet_too_small)
decode cipher (prefix ∷ rest) protocol_id private_key replay encrypted =
    if ltb (length (prefix ∷ rest)) (2 + mac_bytes)
    then (replay, err packet_too_small)
    else decode_typed cipher protocol_id private_key replay encrypted prefix rest
        (of_u8 (decode_prefix prefix).0)
