-- ===== src/Slice/Store.antt =====
-- Storing a slice of a message keeps what is there a part of that message.
use renet.Base.{
  ℕ, ◌+◌, ◌-◌, ◌*◌, ◌/◌, ◌<◌, ◌≤◌, ◌≡◌, ◌≢◌, refl, ◌∙◌, sym, ap, some, arith, true, false,
  Bool-cases, inl, inr, ◌==◌, ltb, if◌then◌else◌, length, length-set, length-take, length-drop,
  get_elem?, set, take, drop, resize, length-resize, get_elem?-append_left, get_elem?-take,
  get_elem?-drop, get_elem?-set_ne, add_u64, add_u64-exact, sub_u64, sub_u64-exact, ok,
}
use renet.Channel.{Bytes}
use renet.Slice.{
  SliceConstructor, copy_from_slice, make_room, slice_end, store, count_slices, slice_payload,
}
use renet.Slice.Splice.{
  splice, length-splice, get_elem?-splice_before, get_elem?-splice_inside, get_elem?-splice_after,
}
use renet.Slice.Received.{count_true, count_true-le, count_true-set}

-- A message with at least one byte, whose slices a packet can number.
pub record IsMessage (m : Bytes) : Type 0 where
  pub filled : 0 < length m
  pub bounded : count_slices m ≤ 1_000_000

-- The constructor holds a part of the message `m`: each slice that is marked received stands at
-- its place, and the buffer has been cut to the message's length once the last slice is there.
pub record Holds (m : Bytes) (c : SliceConstructor) : Type 0 where
  pub number : c.num_slices ≡ count_slices m
  pub flags : length c.received ≡ count_slices m
  pub count : c.num_received_slices ≡ count_true c.received
  pub room : length m ≤ length c.sliced_data
  pub cut : get_elem? c.received (count_slices m - 1) ≡ some true → length c.sliced_data ≡ length m
  pub parts :
      (k : ℕ)
      → k < length m
      → get_elem? c.received (k / 1200) ≡ some true
      → get_elem? c.sliced_data k ≡ get_elem? m k

pub last_slice : (m : Bytes) → IsMessage m → sub_u64 (count_slices m) 1 ≡ count_slices m - 1
unfolding count_slices
last_slice m v =
    let b : count_slices m ≤ 1_000_000 = v.bounded in
    let f : 0 < length m = v.filled in sub_u64-exact (count_slices m) 1 (omega arith) (omega arith)

-- A slice's payload is the message from 1200 bytes times its index on, 1200 bytes long but for the
-- last slice.
pub length-slice_payload :
    (m : Bytes) (i : ℕ)
    → IsMessage m
    → i < count_slices m
    → length (slice_payload m (count_slices m) i)
      ≡ (if i == count_slices m - 1 then length m - i * 1200 else 1200)
unfolding slice_payload count_slices
length-slice_payload m i v h =
    let f : 0 < length m = v.filled in
    rw (last_slice m v) (elim (Bool-cases (i == count_slices m - 1)) [
      | inl e ↦
          let q : i ≡ count_slices m - 1 = ground arith in
          rw e (
            omega (
              arith,
              q,
              length-take (length m - i * 1200) (drop (i * 1200) m),
              length-drop (i * 1200) m,
            ))
      | inr e ↦
          let q : i ≢ count_slices m - 1 = ground arith in
          rw e (
            omega (
              arith,
              q,
              length-take ((i + 1) * 1200 - i * 1200) (drop (i * 1200) m),
              length-drop (i * 1200) m,
            ))
    ])

pub get_elem?-slice_payload :
    (m : Bytes) (i j : ℕ)
    → IsMessage m
    → i < count_slices m
    → j < length (slice_payload m (count_slices m) i)
    → get_elem? (slice_payload m (count_slices m) i) j ≡ get_elem? m (i * 1200 + j)
unfolding slice_payload
get_elem?-slice_payload m i j v h k =
    let end : ℕ = if i == sub_u64 (count_slices m) 1 then length m else (i + 1) * 1200 in
    get_elem?-take (end - i * 1200) (drop (i * 1200) m) j
      (omega (arith, length-take (end - i * 1200) (drop (i * 1200) m)))
    ∙ get_elem?-drop (i * 1200) m j

copy_from_slice-splice :
    (dest : Bytes) (start end : ℕ) (source : Bytes)
    → start + length source ≤ length dest
    → end ≡ start + length source
    → copy_from_slice dest start end source ≡ ok (splice dest start source)
unfolding copy_from_slice
copy_from_slice-splice dest start end source h e = rw e (ground arith)

abbrev pub payload : Bytes → ℕ → Bytes
payload m i = slice_payload m (count_slices m) i

module _ (m : Bytes) (v : IsMessage m) (i : ℕ) (h : i < count_slices m) where
  payload_fits : i * 1200 + length (payload m i) ≤ length m
  unfolding count_slices
  payload_fits = ground (arith, length-slice_payload m i v h, v.filled)

  pub payload_short : length (payload m i) ≤ 1200
  unfolding count_slices
  payload_short = ground (arith, length-slice_payload m i v h, v.filled)

  payload_end :
      (if i == count_slices m - 1
        then (count_slices m - 1) * 1200 + length (payload m i)
        else (i + 1) * 1200)
      ≡ i * 1200 + length (payload m i)
  payload_end = ground (arith, length-slice_payload m i v h)

  last_end : i ≡ count_slices m - 1 → (count_slices m - 1) * 1200 + length (payload m i) ≡ length m
  unfolding count_slices
  last_end e = ground (arith, length-slice_payload m i v h, v.filled)

  slice_end_lem :
      (c : SliceConstructor)
      → Holds m c
      → slice_end c i (payload m i) ≡ i * 1200 + length (payload m i)
  unfolding slice_end
  slice_end_lem c w = rw (w.number, last_slice m v) payload_end

-- The buffer that a slice is written into.
unfoldable pub buffer : Bytes → SliceConstructor → ℕ → Bytes
buffer m c i = if i == count_slices m - 1 then resize (length m) 0 c.sliced_data else c.sliced_data

unfoldable pub stored : Bytes → SliceConstructor → ℕ → SliceConstructor
stored m c i = record c {
  num_received_slices = c.num_received_slices + 1;
  received = set c.received i true;
  sliced_data = splice (buffer m c i) (i * 1200) (payload m i);
}

module _ (m : Bytes) (v : IsMessage m) (c : SliceConstructor) (w : Holds m c) (i : ℕ)
    (h : i < count_slices m) where
  make_room-buffer : make_room c i (payload m i) ≡ buffer m c i
  unfolding make_room buffer
  make_room-buffer =
      rw (w.number, last_slice m v)
        (elim (Bool-cases (i == count_slices m - 1)) [
          | inl e ↦
              rw e (ap (λ (n : ℕ). resize n 0 c.sliced_data) (last_end m v i h (ground arith)))
          | inr e ↦ rw e
        ])

  length-buffer : length m ≤ length (buffer m c i)
  unfolding buffer
  length-buffer = ground (arith, length-resize (length m) 0 c.sliced_data, w.room)

  few : add_u64 c.num_received_slices 1 ≡ c.num_received_slices + 1
  few =
      add_u64-exact c.num_received_slices 1
        (omega (arith, w.count, count_true-le c.received, w.flags, v.bounded))

  pub store_lem : store c i (payload m i) ≡ ok (stored m c i)
  unfolding store stored
  store_lem =
      rw (make_room-buffer, slice_end_lem m v i h c w, few)
        (rw (
          copy_from_slice-splice (buffer m c i) (i * 1200) (i * 1200 + length (payload m i))
            (payload m i) (omega (arith, payload_fits m v i h, length-buffer)) refl))

  get_elem?-buffer : (k : ℕ) → k < length m → get_elem? (buffer m c i) k ≡ get_elem? c.sliced_data k
  unfolding buffer
  get_elem?-buffer k l = elim (Bool-cases (i == count_slices m - 1)) [
    | inl e ↦ rw e (
        get_elem?-append_left (take (length m) c.sliced_data) _ k
          (omega (arith, length-take (length m) c.sliced_data, w.room))
        ∙ get_elem?-take (length m) c.sliced_data k l)
    | inr e ↦ rw e
  ]

  stored_size : length (stored m c i).sliced_data ≡ length (buffer m c i)
  unfolding stored
  stored_size =
      length-splice (buffer m c i) (payload m i) (i * 1200)
        (omega (arith, payload_fits m v i h, length-buffer))

  stored_room : length m ≤ length (stored m c i).sliced_data
  stored_room = omega (arith, stored_size, length-buffer)

  -- What stays as it was outside the new slice's flag.
  old_flag :
      (n : ℕ)
      → i ≢ n
      → get_elem? (stored m c i).received n ≡ some true
      → get_elem? c.received n ≡ some true
  unfolding stored
  old_flag n ne e = sym (get_elem?-set_ne c.received {i = i} {j = n} true ne) ∙ e

  -- Once the last slice is there, by this write or before, the buffer is as long as the message.
  stored_cut :
      get_elem? (stored m c i).received (count_slices m - 1) ≡ some true
      → length (stored m c i).sliced_data ≡ length m
  stored_cut e = elim (Bool-cases (i == count_slices m - 1)) [
    | inl q ↦ stored_size ∙ unfold buffer in rw q (length-resize (length m) 0 c.sliced_data)
    | inr q ↦
        stored_size ∙ unfold buffer in rw q (w.cut (old_flag (count_slices m - 1) (ground arith) e))
  ]

  -- Inside the new slice the buffer shows its payload; elsewhere it shows what it showed before.
  part_inside :
      (k : ℕ) → k < length m → k / 1200 ≡ i → get_elem? (stored m c i).sliced_data k ≡ get_elem? m k
  unfolding stored
  part_inside k l q =
      let j : ℕ = k - i * 1200 in
      let e : i * 1200 + j ≡ k = omega arith in
      let short : j < length (payload m i) = ground (arith, length-slice_payload m i v h) in
      rw e at (
        get_elem?-splice_inside (buffer m c i) (payload m i) (i * 1200)
          (omega (arith, payload_fits m v i h, length-buffer)) j short
        ∙ get_elem?-slice_payload m i j v h short)

  unwritten :
      (k : ℕ)
      → k < length m
      → k / 1200 ≢ i
      → get_elem? (stored m c i).sliced_data k ≡ get_elem? (buffer m c i) k
  unfolding stored
  unwritten k l q =
      let fits : i * 1200 + length (payload m i) ≤ length (buffer m c i) =
        omega (arith, payload_fits m v i h, length-buffer) in
      elim (Bool-cases (ltb k (i * 1200))) [
        | inl before ↦
            get_elem?-splice_before (buffer m c i) (payload m i) (i * 1200) fits k (ground arith)
        | inr after ↦
            get_elem?-splice_after (buffer m c i) (payload m i) (i * 1200) fits k
              (ground (arith, payload_short m v i h))
      ]

  stored_parts :
      (k : ℕ)
      → k < length m
      → get_elem? (stored m c i).received (k / 1200) ≡ some true
      → get_elem? (stored m c i).sliced_data k ≡ get_elem? m k
  stored_parts k l e = elim (Bool-cases (k / 1200 == i)) [
    | inl q ↦ part_inside k l (ground arith)
    | inr q ↦
        let ne : k / 1200 ≢ i = ground arith in
        unwritten k l ne
        ∙ get_elem?-buffer k l
        ∙ w.parts k l (old_flag (k / 1200) (λ x. ne (sym x)) e)
  ]

  pub stored-Holds : get_elem? c.received i ≡ some false → Holds m (stored m c i)
  stored-Holds e = record {
    number = unfold stored in w.number;
    flags = unfold stored in length-set c.received i true ∙ w.flags;
    count = unfold stored in omega (arith, count_true-set c.received i e, w.count);
    room = stored_room;
    cut = stored_cut;
    parts = stored_parts;
  }
