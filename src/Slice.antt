-- ===== src/Slice.antt =====
-- renet2/src/channel/slice_constructor.rs: a message put together from its slices. Also the cuts
-- that the send channels make (`message.slice(start..end)` of renet2/src/channel/reliable.rs).
pub mod Splice
pub mod Received
pub mod Store
pub mod Assembly
pub mod Bounds
mod Runs
use renet.Base.{
  ℕ, ◌+◌, ◌-◌, ◌*◌, ◌/◌, Bool, true, false, ◌&&◌, not, List, [], ◌∷◌, ◌++◌, Option, none, some, ltb,
  leb, ◌==◌, if◌then◌else◌, length, get_elem?, set, take, drop, replicate, resize, add_u64, sub_u64,
  Result, ok, err, panic, ◌>>=◌,
}
use renet.Channel.{Bytes, slice_size, ChannelError, invalid_slice_message}

pub record SliceConstructor : Type 0 where
  pub message_id : ℕ
  pub num_slices : ℕ
  pub num_received_slices : ℕ
  pub received : List Bool
  pub sliced_data : Bytes

-- num_slices is at most 1_000_000 (`Packet::from_bytes`), so the product does not wrap.
pub new : ℕ → ℕ → SliceConstructor
new message_id num_slices = record {
  message_id = message_id;
  num_slices = num_slices;
  num_received_slices = 0;
  received = replicate num_slices false;
  sliced_data = replicate (num_slices * slice_size) 0;
}

-- `dest[start..end].copy_from_slice(bytes)`: it panics where the range is out of bounds, or not
-- as long as the source.
pub copy_from_slice : Bytes → ℕ → ℕ → Bytes → Result ChannelError Bytes
copy_from_slice dest start end bytes =
    if leb end (length dest) && (end == start + length bytes)
    then ok (take start dest ++ (bytes ++ drop end dest))
    else panic

-- The last slice cuts the buffer to the message's length.
pub make_room : SliceConstructor → ℕ → Bytes → Bytes
make_room c slice_index bytes =
    let last = sub_u64 c.num_slices 1 in
    if slice_index == last
    then resize (last * slice_size + length bytes) 0 c.sliced_data
    else c.sliced_data

pub slice_end : SliceConstructor → ℕ → Bytes → ℕ
slice_end c slice_index bytes =
    let last = sub_u64 c.num_slices 1 in
    if slice_index == last then last * slice_size + length bytes else (slice_index + 1) * slice_size

-- The body of `if !self.received[slice_index]`.
pub store : SliceConstructor → ℕ → Bytes → Result ChannelError SliceConstructor
store c slice_index bytes =
    copy_from_slice (make_room c slice_index bytes) (slice_index * slice_size)
      (slice_end c slice_index bytes) bytes
    >>= λ sliced_data. ok (record c {
      num_received_slices = add_u64 c.num_received_slices 1;
      received = set c.received slice_index true;
      sliced_data = sliced_data;
    })

-- The payload is taken out once all slices are there.
pub finish : SliceConstructor → SliceConstructor × Option Bytes
finish c =
    if c.num_received_slices == c.num_slices
    then (record c { sliced_data = [] }, some c.sliced_data)
    else (c, none)

-- `process_slice` behind the size tests; `self.received[slice_index]` panics out of bounds.
pub process_valid :
    SliceConstructor → ℕ → Bytes → Result ChannelError (SliceConstructor × Option Bytes)
process_valid c slice_index bytes = elim (get_elem? c.received slice_index) [
  | none ↦ panic
  | some true ↦ ok (finish c)
  | some false ↦ store c slice_index bytes >>= λ stored. ok (finish stored)
]

pub process_slice :
    SliceConstructor → ℕ → Bytes → Result ChannelError (SliceConstructor × Option Bytes)
process_slice c slice_index bytes =
    if slice_index == sub_u64 c.num_slices 1
    then (if ltb slice_size (length bytes)
        then err invalid_slice_message
        else process_valid c slice_index bytes)
    else if not (length bytes == slice_size)
    then err invalid_slice_message
    else process_valid c slice_index bytes

-- `payload.len().div_ceil(SLICE_SIZE)`
unfoldable pub count_slices : Bytes → ℕ
count_slices message = (length message + (slice_size - 1)) / slice_size

-- The payload of a slice, as both send channels cut it.
unfoldable pub slice_payload : Bytes → ℕ → ℕ → Bytes
slice_payload message num_slices i =
    let start = i * slice_size in
    let end = if i == sub_u64 num_slices 1 then length message else (i + 1) * slice_size in
    take (end - start) (drop start message)
