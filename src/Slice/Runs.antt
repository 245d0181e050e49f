-- ===== src/Slice/Runs.antt =====
-- Messages of a few slices, and the theorems at concrete inputs.
use renet.Base.{
  ◌≡◌, refl, [], ◌∷◌, ◌++◌, some, true, arith, replicate, ok, err, panic, add_u64, sub_u64,
}
use renet.Channel.{Bytes, invalid_slice_message}
use renet.Slice.{
  SliceConstructor, new, finish, store, make_room, slice_end, copy_from_slice, process_valid,
  process_slice, count_slices, slice_payload,
}
use renet.Slice.Store.{IsMessage}
use renet.Slice.Assembly.{Assembled, assemble, assemble-new, slices_of}
use renet.Slice.Bounds.{process_slice_index_panics}

-- 2500 bytes: two full slices and one of 100 bytes.
abbrev message : Bytes
message = replicate 1200 1 ++ (replicate 1200 2 ++ replicate 100 3)

message-IsMessage : IsMessage message
unfolding count_slices
message-IsMessage = record { filled = omega arith; bounded = omega arith }

-- The last slice first, and one of them twice.
any_order :
    (c : SliceConstructor) × (assemble (new 0 3) (slices_of message (2 ∷ 0 ∷ 2 ∷ 1 ∷ []))
      ≡ ok (c, some message))
unfolding assemble process_slice process_valid store finish copy_from_slice make_room slice_end new
    slice_payload count_slices add_u64 sub_u64
any_order = (
  record {
    message_id = 0;
    num_slices = 3;
    num_received_slices = 3;
    received = true ∷ true ∷ true ∷ [];
    sliced_data = [];
  },
  refl,
)

wrong_size : process_slice (new 0 3) 0 (1 ∷ 2 ∷ []) ≡ err invalid_slice_message
unfolding process_slice new sub_u64
wrong_size = refl

assemble-new_example :
    Assembled message
      (2 ∷ 0 ∷ 2 ∷ [])
      (assemble (new 7 (count_slices message)) (slices_of message (2 ∷ 0 ∷ 2 ∷ [])))
unfolding count_slices
assemble-new_example = assemble-new message 7 (2 ∷ 0 ∷ 2 ∷ []) message-IsMessage (omega arith)

process_slice_index_panics_example : process_slice (new 0 3) 5 (replicate 1200 1) ≡ panic
unfolding new
process_slice_index_panics_example =
    process_slice_index_panics (new 0 3) 5 (replicate 1200 1) (omega arith) (omega arith) refl
      (omega arith) refl
