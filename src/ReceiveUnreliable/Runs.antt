-- ===== src/ReceiveUnreliable/Runs.antt =====
-- Tests of `ReceiveChannelUnreliable`, and the theorems at concrete inputs.
use renet.Base.{◌≡◌, refl, [], ◌∷◌, arith, replicate, sub_u64, ok, true, false}
use renet.Channel.{Slice, Returns}
use renet.Map.{lookup, remove}
use renet.Slice.{SliceConstructor}
use renet.ReceiveUnreliable.{
  ReceiveChannelUnreliable, process_slice, discard_incomplete_old_slices, lost_messages, discard,
  discard_all,
}
use renet.ReceiveUnreliable.Discard.{
  IsTimed, Kept, discard_incomplete_old_slices-IsTimed, process_slice-IsTimed,
}

abbrev constructor : SliceConstructor
constructor = record {
  message_id = 4;
  num_slices = 2;
  num_received_slices = 1;
  received = true ∷ false ∷ [];
  sliced_data = replicate 2400 0;
}

-- Two messages of which slices are missing, last heard of at 0 and at 2 seconds.
abbrev channel : ReceiveChannelUnreliable
channel = record {
  channel_id = 1;
  messages = [];
  slices = (4, constructor) ∷ (6, constructor) ∷ [];
  slices_last_received = (4, 0) ∷ (6, 2_000_000_000) ∷ [];
  max_memory_usage_bytes = 10_000;
  memory_usage_bytes = 4800;
}

channel-IsTimed : IsTimed 4_000_000_000 channel
unfolding lookup
channel-IsTimed = record {
  rising = (omega arith, (omega arith, tt));
  past = (omega arith, (omega arith, tt));
  present = λ id h e. ground arith;
}

discard_incomplete_old_slices-IsTimed_example :
    Returns (IsTimed 4_000_000_000) (discard_incomplete_old_slices channel 4_000_000_000)
discard_incomplete_old_slices-IsTimed_example =
    discard_incomplete_old_slices-IsTimed 4_000_000_000 channel channel-IsTimed

abbrev last_slice : Slice
last_slice = record { message_id = 4; slice_index = 1; num_slices = 2; payload = 9 ∷ [] }

process_slice-IsTimed_example : Kept 4_000_000_000 (process_slice channel last_slice 4_000_000_000)
process_slice-IsTimed_example =
    process_slice-IsTimed 4_000_000_000 channel last_slice channel-IsTimed

-- After three seconds the first message is discarded, and its memory is given back.
first_discarded :
    discard_incomplete_old_slices channel 4_000_000_000
    ≡ ok (record channel {
      slices = (6, constructor) ∷ [];
      slices_last_received = (6, 2_000_000_000) ∷ [];
      memory_usage_bytes = 2400;
    })
unfolding discard_incomplete_old_slices lost_messages discard_all discard lookup remove sub_u64
first_discarded = refl
