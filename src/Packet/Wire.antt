-- ===== src/Packet/Wire.antt =====
-- `Packet`, `to_bytes` and `from_bytes`.
use mathlib.Core.List.{reverse}
use renet.Base.{
  ℕ, zero, suc, ◌-◌, ◌%◌, ◌||◌, List, [], ◌∷◌, Option, none, some, ltb, ◌==◌, if◌then◌else◌, length,
  add_u64, sub_u64, Result, ok, err, panic, ◌>>=◌,
}
use renet.Ack.{AckRange}
use renet.Channel.{Bytes, Slice, slice_size}
use renet.Packet.Crate.{Octets}

pub data Packet : Type 0 where
  small_reliable : ℕ → ℕ → List (ℕ × Bytes) → Packet
  small_unreliable : ℕ → ℕ → List Bytes → Packet
  unreliable_slice : ℕ → ℕ → Slice → Packet
  reliable_slice : ℕ → ℕ → Slice → Packet
  ack : ℕ → List AckRange → Packet

pub data SerializationError : Type 0 where
  buffer_too_short invalid_num_slices slice_size_above_limit empty_slice : SerializationError
  invalid_ack_range invalid_packet_type : SerializationError

unfoldable pub sequence_of : Packet → ℕ
sequence_of (small_reliable sequence channel_id messages) = sequence
sequence_of (small_unreliable sequence channel_id messages) = sequence
sequence_of (unreliable_slice sequence channel_id slice) = sequence
sequence_of (reliable_slice sequence channel_id slice) = sequence
sequence_of (ack sequence ack_ranges) = sequence

-- `BufferTooShortError` becomes `BufferTooShort`.
abbrev pub try {ℓ} : {A : Type ℓ} → Option A → Result SerializationError A
try none = err buffer_too_short
try (some a) = ok a

module _ (o : Octets) where
  open o use {
    Buffer, cap, put_u8, put_u16, put_varint, put_bytes, get_u8, get_u16, get_varint,
    get_bytes_with_varint_length,
  }

  unfoldable pub put_messages : List (ℕ × Bytes) → Buffer → Result SerializationError Buffer
  put_messages [] b = ok b
  put_messages ((message_id, message) ∷ rest) b = do
    b ← try (put_varint message_id b)
    b ← try (put_varint (length message) b)
    b ← try (put_bytes message b)
    put_messages rest b

  unfoldable pub put_payloads : List Bytes → Buffer → Result SerializationError Buffer
  put_payloads [] b = ok b
  put_payloads (message ∷ rest) b = do
    b ← try (put_varint (length message) b)
    b ← try (put_bytes message b)
    put_payloads rest b

  unfoldable pub put_slice : Slice → Buffer → Result SerializationError Buffer
  put_slice slice b = do
    b ← try (put_varint slice.message_id b)
    b ← try (put_varint slice.slice_index b)
    b ← try (put_varint slice.num_slices b)
    b ← try (put_varint (length slice.payload) b)
    try (put_bytes slice.payload b)

  -- The ranges below the last one, from the top down.
  unfoldable pub put_ranges : ℕ → List AckRange → Buffer → Result SerializationError Buffer
  put_ranges previous_range_start [] b = ok b
  put_ranges previous_range_start (range ∷ rest) b = do
    b ← try (put_varint (sub_u64 (sub_u64 previous_range_start range.end) 1) b)
    b ← try (put_varint (sub_u64 (sub_u64 range.end 1) range.start) b)
    put_ranges range.start rest b

  -- `it.next().unwrap()` panics where there is no range.
  unfoldable pub put_ack_ranges : List AckRange → Buffer → Result SerializationError Buffer
  put_ack_ranges [] b = panic
  put_ack_ranges (last ∷ it) b = do
    b ← try (put_varint (sub_u64 last.end 1) b)
    b ← try (put_varint (sub_u64 (sub_u64 last.end 1) last.start) b)
    b ← try (put_varint (length it) b)
    put_ranges last.start it b

  unfoldable pub put_packet : Packet → Buffer → Result SerializationError Buffer
  put_packet (small_reliable sequence channel_id messages) b = do
    b ← try (put_u8 0 b)
    b ← try (put_varint sequence b)
    b ← try (put_u8 channel_id b)
    b ← try (put_u16 (length messages % 65536) b)
    put_messages messages b
  put_packet (small_unreliable sequence channel_id messages) b = do
    b ← try (put_u8 1 b)
    b ← try (put_varint sequence b)
    b ← try (put_u8 channel_id b)
    b ← try (put_u16 (length messages % 65536) b)
    put_payloads messages b
  put_packet (reliable_slice sequence channel_id slice) b = do
    b ← try (put_u8 2 b)
    b ← try (put_varint sequence b)
    b ← try (put_u8 channel_id b)
    put_slice slice b
  put_packet (unreliable_slice sequence channel_id slice) b = do
    b ← try (put_u8 3 b)
    b ← try (put_varint sequence b)
    b ← try (put_u8 channel_id b)
    put_slice slice b
  put_packet (ack sequence ack_ranges) b = do
    b ← try (put_u8 4 b)
    b ← try (put_varint sequence b)
    put_ack_ranges (reverse ack_ranges) b

  -- The buffer as it is left, and the number of bytes written.
  unfoldable pub to_bytes : Packet → Buffer → Result SerializationError (Buffer × ℕ)
  to_bytes packet b = do b' ← put_packet packet b; ok (b', cap b - cap b')

  unfoldable pub get_messages : ℕ → Bytes → Result SerializationError (List (ℕ × Bytes) × Bytes)
  get_messages zero b = ok ([], b)
  get_messages (suc messages_len) b = do
    (message_id, b) ← try (get_varint b)
    (payload, b) ← try (get_bytes_with_varint_length b)
    (messages, b) ← get_messages messages_len b
    ok ((message_id, payload) ∷ messages, b)

  unfoldable pub get_payloads : ℕ → Bytes → Result SerializationError (List Bytes × Bytes)
  get_payloads zero b = ok ([], b)
  get_payloads (suc messages_len) b = do
    (payload, b) ← try (get_bytes_with_varint_length b)
    (messages, b) ← get_payloads messages_len b
    ok (payload ∷ messages, b)

  -- The fields of a slice up to its payload, and the test of its number of slices.
  unfoldable pub get_slice : Bytes → Result SerializationError (Slice × Bytes)
  get_slice b = do
    (message_id, b) ← try (get_varint b)
    (slice_index, b) ← try (get_varint b)
    (num_slices, b) ← try (get_varint b)
    if num_slices == 0 || ltb 1_000_000 num_slices then err invalid_num_slices else (do
      (payload, b) ← try (get_bytes_with_varint_length b)
      ok (
        record {
          message_id = message_id;
          slice_index = slice_index;
          num_slices = num_slices;
          payload = payload;
        },
        b,
      ))

  -- A reliable slice is not empty, and not above the size of a slice.
  unfoldable pub check_payload : Slice × Bytes → Result SerializationError (Slice × Bytes)
  check_payload (slice, b) =
      if length slice.payload == 0
      then err empty_slice
      else if ltb slice_size (length slice.payload)
      then err slice_size_above_limit
      else ok (slice, b)

  -- From the top down, each read against the start of the range above it.
  unfoldable pub get_ranges : ℕ → ℕ → Bytes → Result SerializationError (List AckRange × Bytes)
  get_ranges zero previous_range_start b = ok ([], b)
  get_ranges (suc remaining) previous_range_start b = do
    (gap, b) ← try (get_varint b)
    if ltb previous_range_start (add_u64 2 gap) then err invalid_ack_range else (do
      let range_end = sub_u64 (sub_u64 previous_range_start gap) 2
      (range_size, b) ← try (get_varint b)
      if ltb range_end range_size then err invalid_ack_range else (do
        let range_start = sub_u64 range_end range_size
        (ranges, b) ← get_ranges remaining range_start b
        ok (record { start = range_start; end = add_u64 range_end 1 } ∷ ranges, b)))

  unfoldable pub get_ack_ranges : Bytes → Result SerializationError (List AckRange × Bytes)
  get_ack_ranges b = do
    (first_range_end, b) ← try (get_varint b)
    (first_range_size, b) ← try (get_varint b)
    (num_remaining_ranges, b) ← try (get_varint b)
    if ltb first_range_end first_range_size then err invalid_ack_range else (do
      let first_range_start = sub_u64 first_range_end first_range_size
      (ranges, b) ← get_ranges num_remaining_ranges first_range_start b
      ok (
        reverse (record { start = first_range_start; end = add_u64 first_range_end 1 } ∷ ranges),
        b,
      ))

  -- By the type byte; what is left of the input is not looked at.
  unfoldable pub get_packet : ℕ → Bytes → Result SerializationError (Packet × Bytes)
  get_packet packet_type b =
      if packet_type == 0
      then (do
        (sequence, b) ← try (get_varint b)
        (channel_id, b) ← try (get_u8 b)
        (messages_len, b) ← try (get_u16 b)
        (messages, b) ← get_messages messages_len b
        ok (small_reliable sequence channel_id messages, b))
      else if packet_type == 1
      then (do
        (sequence, b) ← try (get_varint b)
        (channel_id, b) ← try (get_u8 b)
        (messages_len, b) ← try (get_u16 b)
        (messages, b) ← get_payloads messages_len b
        ok (small_unreliable sequence channel_id messages, b))
      else if packet_type == 2
      then (do
        (sequence, b) ← try (get_varint b)
        (channel_id, b) ← try (get_u8 b)
        read ← get_slice b
        (slice, b) ← check_payload read
        ok (reliable_slice sequence channel_id slice, b))
      else if packet_type == 3
      then (do
        (sequence, b) ← try (get_varint b)
        (channel_id, b) ← try (get_u8 b)
        (slice, b) ← get_slice b
        ok (unreliable_slice sequence channel_id slice, b))
      else if packet_type == 4
      then (do
        (sequence, b) ← try (get_varint b)
        (ack_ranges, b) ← get_ack_ranges b
        ok (ack sequence ack_ranges, b))
      else err invalid_packet_type

  unfoldable pub from_bytes : Bytes → Result SerializationError (Packet × Bytes)
  from_bytes b = do (packet_type, b) ← try (get_u8 b); get_packet packet_type b
