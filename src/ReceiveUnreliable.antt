-- ===== src/ReceiveUnreliable.antt =====
-- renet2/src/channel/unreliable.rs: `ReceiveChannelUnreliable`. A `Duration` is its nanoseconds; a
-- subtraction of a later time panics. An error keeps no state: the connection is given up on it.
pub mod Discard
mod Runs
use renet.Base.{
  ℕ, ◌-◌, ◌*◌, Bool, true, false, not, List, [], ◌∷◌, ◌++◌, Option, none, some, ltb, leb,
  if◌then◌else◌, length, add_u64, sub_u64, Result, ok, err, panic, ◌>>=◌,
}
use renet.Channel.{Bytes, Slice, slice_size, ChannelError}
use renet.Map.{lookup, insert, remove}
use renet.Slice
use renet.Slice.{SliceConstructor}

pub record ReceiveChannelUnreliable : Type 0 where
  pub channel_id : ℕ
  pub messages : List Bytes
  pub slices : List (ℕ × SliceConstructor)
  pub slices_last_received : List (ℕ × ℕ)
  pub max_memory_usage_bytes : ℕ
  pub memory_usage_bytes : ℕ

unfoldable pub new : ℕ → ℕ → ReceiveChannelUnreliable
new channel_id max_memory_usage_bytes = record {
  channel_id = channel_id;
  messages = [];
  slices = [];
  slices_last_received = [];
  max_memory_usage_bytes = max_memory_usage_bytes;
  memory_usage_bytes = 0;
}

-- A message that finds no memory is dropped.
pub process_message : ReceiveChannelUnreliable → Bytes → ReceiveChannelUnreliable
process_message c message =
    if ltb c.max_memory_usage_bytes (add_u64 c.memory_usage_bytes (length message))
    then c
    else record c {
      memory_usage_bytes = add_u64 c.memory_usage_bytes (length message);
      messages = c.messages ++ message ∷ [];
    }

-- The result of the constructor: the message is complete, or slices are missing.
pub settle :
    ReceiveChannelUnreliable
    → Slice
    → ℕ
    → SliceConstructor × Option Bytes
    → ReceiveChannelUnreliable
settle c slice current_time (constructor, none) = record c {
  slices = insert slice.message_id constructor c.slices;
  slices_last_received = insert slice.message_id current_time c.slices_last_received;
}
settle c slice current_time (constructor, some message) = record c {
  slices = remove slice.message_id c.slices;
  slices_last_received = remove slice.message_id c.slices_last_received;
  memory_usage_bytes =
      add_u64 (sub_u64 c.memory_usage_bytes (slice.num_slices * slice_size)) (length message);
  messages = c.messages ++ message ∷ [];
}

pub take_slice :
    ReceiveChannelUnreliable
    → Slice
    → ℕ
    → SliceConstructor
    → Result ChannelError ReceiveChannelUnreliable
take_slice c slice current_time constructor =
    Slice.process_slice constructor slice.slice_index slice.payload >>= λ r.
    ok (settle c slice current_time r)

-- The first slice of a message takes memory for all of them, or is dropped.
pub process_slice :
    ReceiveChannelUnreliable → Slice → ℕ → Result ChannelError ReceiveChannelUnreliable
process_slice c slice current_time = elim (lookup slice.message_id c.slices) [
  | none ↦
      if ltb c.max_memory_usage_bytes (add_u64 c.memory_usage_bytes (slice.num_slices * slice_size))
      then ok c
      else take_slice
          (record c {
            memory_usage_bytes = add_u64 c.memory_usage_bytes (slice.num_slices * slice_size);
          })
          slice current_time (Slice.new slice.message_id slice.num_slices)
  | some constructor ↦ take_slice c slice current_time constructor
]

-- `Duration::from_secs(3)`
abbrev pub discard_after : ℕ
discard_after = 3_000_000_000

-- The ids up to the first one that is not old enough.
pub lost_messages : ℕ → List (ℕ × ℕ) → Result ChannelError (List ℕ)
lost_messages current_time [] = ok []
lost_messages current_time ((message_id, last_received) ∷ rest) =
    if ltb current_time last_received
    then panic
    else if leb discard_after (current_time - last_received)
    then (lost_messages current_time rest >>= λ ids. ok (message_id ∷ ids))
    else ok []

-- `expect("discarded slice should exist")`
pub discard : ReceiveChannelUnreliable → ℕ → Result ChannelError ReceiveChannelUnreliable
discard c message_id = elim (lookup message_id c.slices) [
  | none ↦ panic
  | some slice ↦ ok (record c {
    slices_last_received = remove message_id c.slices_last_received;
    slices = remove message_id c.slices;
    memory_usage_bytes = sub_u64 c.memory_usage_bytes (slice.num_slices * slice_size);
  })
]

pub discard_all : ReceiveChannelUnreliable → List ℕ → Result ChannelError ReceiveChannelUnreliable
discard_all c [] = ok c
discard_all c (message_id ∷ rest) = discard c message_id >>= λ d. discard_all d rest

pub discard_incomplete_old_slices :
    ReceiveChannelUnreliable → ℕ → Result ChannelError ReceiveChannelUnreliable
discard_incomplete_old_slices c current_time =
    lost_messages current_time c.slices_last_received >>= λ ids. discard_all c ids

unfoldable pub receive_message : ReceiveChannelUnreliable → ReceiveChannelUnreliable × Option Bytes
receive_message c = elim c.messages [
  | [] ↦ (c, none)
  | message ∷ rest ↦ (
    record c {
      messages = rest;
      memory_usage_bytes = sub_u64 c.memory_usage_bytes (length message);
    },
    some message,
  )
]
