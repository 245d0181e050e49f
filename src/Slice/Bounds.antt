-- ===== src/Slice/Bounds.antt =====
-- What a peer's slice can do to a constructor.
use renet.Base.{ℕ, ◌^◌, ◌<◌, ◌≤◌, ◌≡◌, arith, length, get_elem?-none, sub_u64-exact, panic}
use renet.Channel.{Bytes, slice_size}
use renet.Slice.{SliceConstructor, process_valid, process_slice}

-- A slice index at or past the number of slices makes the constructor panic when the payload is of
-- full size: nothing tests the index that a peer has sent.
pub process_slice_index_panics :
    (c : SliceConstructor) (i : ℕ) (bytes : Bytes)
    → 0 < c.num_slices
    → c.num_slices < 2 ^ 64
    → length c.received ≡ c.num_slices
    → c.num_slices ≤ i
    → length bytes ≡ slice_size
    → process_slice c i bytes ≡ panic
unfolding process_slice process_valid
process_slice_index_panics c i bytes p u e h l =
    rw (sub_u64-exact c.num_slices 1 (omega arith) u)
      (rw (get_elem?-none c.received i (omega arith), process_valid) (ground arith))
