-- ===== src/ReceiveReliable.antt =====
-- renet2/src/channel/reliable.rs: `ReceiveChannelReliable`. An error keeps no state: the connection
-- is given up on it.
pub mod Order
pub mod Slices
pub mod Skip
mod Runs
use renet.Base.{
  ℕ, zero, suc, ◌+◌, ◌*◌, Bool, true, false, ◌||◌, not, List, [], ◌∷◌, Option, none, some, ltb, leb,
  ◌==◌, if◌then◌else◌, length, add_u64, sub_u64, Result, ok, err, panic, ◌>>=◌,
}
use renet.Channel.{Bytes, Slice, slice_size, ChannelError, reliable_channel_max_memory_reached}
use renet.Map.{lookup, insert, remove}
use renet.Slice
use renet.Slice.{SliceConstructor}

-- A set is a map into the type of one element.
pub data ReliableOrder : Type 0 where
  ordered : ReliableOrder
  unordered : ℕ → List (ℕ × Unit {0}) → ReliableOrder

pub record ReceiveChannelReliable : Type 0 where
  pub slices : List (ℕ × SliceConstructor)
  pub messages : List (ℕ × Bytes)
  pub oldest_pending_message_id : ℕ
  pub reliable_order : ReliableOrder
  pub memory_usage_bytes : ℕ
  pub max_memory_usage_bytes : ℕ

unfoldable pub new : ℕ → Bool → ReceiveChannelReliable
new max_memory_usage_bytes is_ordered = record {
  slices = [];
  messages = [];
  oldest_pending_message_id = 0;
  reliable_order = if is_ordered then ordered else unordered 0 [];
  memory_usage_bytes = 0;
  max_memory_usage_bytes = max_memory_usage_bytes;
}

abbrev pub contains_key {ℓ} : {V : Type ℓ} → ℕ → List (ℕ × V) → Bool
contains_key k m = elim (lookup k m) [ none ↦ false | some v ↦ true ]

-- A message takes memory before it is stored.
pub store_message :
    ReceiveChannelReliable → Bytes → ℕ → ReliableOrder → Result ChannelError ReceiveChannelReliable
store_message c message message_id order =
    if ltb c.max_memory_usage_bytes (add_u64 c.memory_usage_bytes (length message))
    then err reliable_channel_max_memory_reached
    else ok (record c {
      messages = insert message_id message c.messages;
      reliable_order = order;
      memory_usage_bytes = add_u64 c.memory_usage_bytes (length message);
    })

pub process_ordered :
    ReceiveChannelReliable → Bytes → ℕ → Result ChannelError ReceiveChannelReliable
process_ordered c message message_id =
    if contains_key message_id c.messages then ok c else store_message c message message_id ordered

pub process_unordered :
    ReceiveChannelReliable
    → ℕ
    → List (ℕ × Unit {0})
    → Bytes
    → ℕ
    → Result ChannelError ReceiveChannelReliable
process_unordered c most_recent_message_id received_messages message message_id =
    let most_recent =
      if ltb most_recent_message_id message_id then message_id else most_recent_message_id in
    if not (contains_key message_id received_messages)
    then store_message c message message_id
        (unordered most_recent (insert message_id tt received_messages))
    else ok (record c { reliable_order = unordered most_recent received_messages })

pub process_by_order :
    ReceiveChannelReliable → ReliableOrder → Bytes → ℕ → Result ChannelError ReceiveChannelReliable
process_by_order c ordered message message_id = process_ordered c message message_id
process_by_order c (unordered most_recent received) message message_id =
    process_unordered c most_recent received message message_id

-- An old message has been received already, and is discarded.
pub process_message :
    ReceiveChannelReliable → Bytes → ℕ → Result ChannelError ReceiveChannelReliable
process_message c message message_id =
    if ltb message_id c.oldest_pending_message_id
    then ok c
    else process_by_order c c.reliable_order message message_id

-- Memory for all slices of a message is taken with its first one.
pub reserve : ReceiveChannelReliable → Slice → Result ChannelError ReceiveChannelReliable
reserve c slice =
    let message_len = slice.num_slices * slice_size in
    if not (contains_key slice.message_id c.slices)
    then (if ltb c.max_memory_usage_bytes (add_u64 c.memory_usage_bytes message_len)
        then err reliable_channel_max_memory_reached
        else ok (record c { memory_usage_bytes = add_u64 c.memory_usage_bytes message_len }))
    else ok c

-- `entry(..).or_insert_with(..)`
abbrev pub constructor_of : ReceiveChannelReliable → Slice → SliceConstructor
constructor_of c slice = elim (lookup slice.message_id c.slices) [
  | none ↦ Slice.new slice.message_id slice.num_slices
  | some constructor ↦ constructor
]

-- A message that is complete is accounted for by its own length.
pub settle :
    ReceiveChannelReliable
    → Slice
    → SliceConstructor × Option Bytes
    → Result ChannelError ReceiveChannelReliable
settle c slice (constructor, none) =
    ok (record c { slices = insert slice.message_id constructor c.slices })
settle c slice (constructor, some message) =
    process_message
      (record c {
        slices = insert slice.message_id constructor c.slices;
        memory_usage_bytes = sub_u64 c.memory_usage_bytes (slice.num_slices * slice_size);
      })
      message slice.message_id
    >>= λ d. ok (record d { slices = remove slice.message_id d.slices })

pub process_slice : ReceiveChannelReliable → Slice → Result ChannelError ReceiveChannelReliable
process_slice c slice =
    if contains_key slice.message_id c.messages || ltb slice.message_id c.oldest_pending_message_id
    then ok c
    else (reserve c slice >>= λ d.
        Slice.process_slice (constructor_of d slice) slice.slice_index slice.payload >>= λ r.
        settle d slice r)

-- `while received_messages.contains(..)`: every round takes an element out of the set, so the
-- number of its elements bounds the rounds.
pub skip_received : ℕ → ℕ → List (ℕ × Unit {0}) → ℕ × List (ℕ × Unit {0})
skip_received zero oldest received = (oldest, received)
skip_received (suc fuel) oldest received =
    let next = skip_received fuel (add_u64 oldest 1) (remove oldest received) in
    if contains_key oldest received then next else (oldest, received)

pub receive_ordered : ReceiveChannelReliable → Option Bytes → ReceiveChannelReliable × Option Bytes
receive_ordered c none = (c, none)
receive_ordered c (some message) = (
  record c {
    messages = remove c.oldest_pending_message_id c.messages;
    oldest_pending_message_id = add_u64 c.oldest_pending_message_id 1;
    memory_usage_bytes = sub_u64 c.memory_usage_bytes (length message);
  },
  some message,
)

-- `pop_first` of the messages.
pub receive_unordered :
    ReceiveChannelReliable
    → ℕ
    → List (ℕ × Unit {0})
    → List (ℕ × Bytes)
    → ReceiveChannelReliable × Option Bytes
receive_unordered c most_recent received [] = (c, none)
receive_unordered c most_recent received ((message_id, message) ∷ rest) =
    let skipped =
      if c.oldest_pending_message_id == message_id
      then skip_received (length received) c.oldest_pending_message_id received
      else (c.oldest_pending_message_id, received) in
    (
      record c {
        messages = rest;
        oldest_pending_message_id = skipped.0;
        reliable_order = unordered most_recent skipped.1;
        memory_usage_bytes = sub_u64 c.memory_usage_bytes (length message);
      },
      some message,
    )

pub receive_by_order :
    ReceiveChannelReliable → ReliableOrder → ReceiveChannelReliable × Option Bytes
receive_by_order c ordered = receive_ordered c (lookup c.oldest_pending_message_id c.messages)
receive_by_order c (unordered most_recent received) =
    receive_unordered c most_recent received c.messages

pub receive_message : ReceiveChannelReliable → ReceiveChannelReliable × Option Bytes
receive_message c = receive_by_order c c.reliable_order
