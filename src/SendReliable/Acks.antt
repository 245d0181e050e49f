-- ===== src/SendReliable/Acks.antt =====
-- An acknowledgement gives up its message, or marks its slice, and keeps the channel in order.
use renet.Base.{
  ℕ, ◌+◌, ◌-◌, ◌<◌, ◌≡◌, ◌≢◌, refl, sym, ap, ◌∙◌, length, Bool, true, false, List, Option, none,
  some, ◌==◌, if◌then◌else◌, get_elem?, set, length-set, arith, add_u64, sub_u64, add_u64-exact,
  sub_u64-exact, Bool-cases, inl, inr,
}
use renet.Channel.{Returns}
use renet.Map.{
  lookup, remove, lookup-insert, lookup-remove, sum_of, Every-insert, Every-remove, Every-lookup,
  insert-Ascending, remove-Ascending, sum_of-remove, sum_of-replace,
}
use renet.Slice.Received.{
  count_true, all_true, all_true-count_true, set-itself, count_true-set, get_elem?-some,
}
use renet.SendReliable.{
  SlicedMessage, UnackedMessage, small, sliced, SendChannelReliable, ack_small, process_message_ack,
  count_ack, ack_slice, process_slice_message_ack,
}
use renet.SendReliable.Loop.{IsSliced, IsUnacked}
use renet.SendReliable.Memory.{size_of, IsChannel}

-- The total of the messages is below the machine's limit, and so each of them is.
memory_bound :
    (now : ℕ) (c : SendChannelReliable) (id : ℕ) (u : UnackedMessage)
    → IsChannel now c
    → lookup id c.unacked_messages ≡ some u
    → size_of u + sum_of size_of (remove id c.unacked_messages) ≡ c.memory_usage_bytes
memory_bound now c id u v e =
    sum_of-remove size_of 0 id u c.unacked_messages v.rising e ∙ sym v.exact

-- The channel after a message has been given up.
give_up : SendChannelReliable → ℕ → UnackedMessage → SendChannelReliable
give_up c id u = record c {
  memory_usage_bytes = sub_u64 c.memory_usage_bytes (size_of u);
  unacked_messages = remove id c.unacked_messages;
}

give_up-IsChannel :
    (now : ℕ) (c : SendChannelReliable) (id : ℕ) (u : UnackedMessage)
    → IsChannel now c
    → lookup id c.unacked_messages ≡ some u
    → IsChannel now (give_up c id u)
unfolding give_up
give_up-IsChannel now c id u v e =
    let bound : size_of u + sum_of size_of (remove id c.unacked_messages) ≡ c.memory_usage_bytes =
      memory_bound now c id u v e in
    let less : sub_u64 c.memory_usage_bytes (size_of u) ≡ c.memory_usage_bytes - size_of u =
      sub_u64-exact c.memory_usage_bytes (size_of u) (omega arith)
        (omega (arith, v.limited, v.machine)) in
    record {
      exact = omega arith;
      limited = omega (arith, v.limited);
      machine = v.machine;
      rising = remove-Ascending 0 id c.unacked_messages v.rising;
      fresh = Every-remove (λ k u. k < c.next_reliable_message_id) id c.unacked_messages v.fresh;
      entries = Every-remove (λ k u. IsUnacked now u) id c.unacked_messages v.entries;
    }

-- The message is gone, and every other one is as it was.
abbrev pub IsGivenUp : ℕ → SendChannelReliable → SendChannelReliable → Type 0
IsGivenUp id c d =
    (j : ℕ) → lookup j d.unacked_messages ≡ (if j == id then none else lookup j c.unacked_messages)

lookup-itself :
    (id j : ℕ) (m : List (ℕ × UnackedMessage)) (found : Option UnackedMessage)
    → lookup id m ≡ found
    → lookup j m ≡ (if j == id then found else lookup j m)
lookup-itself id j m found e = elim (Bool-cases (j == id)) [
  | inl q ↦ let same : j ≡ id = ground arith in rw q (rw same e)
  | inr q ↦ rw q refl
]

-- The acknowledgement of a small message keeps the channel in order, gives up that message and
-- leaves every other as it was. It does not panic unless the id is that of a sliced message.
pub process_message_ack-IsChannel :
    (now : ℕ) (c : SendChannelReliable) (id : ℕ)
    → ((s : SlicedMessage) → lookup id c.unacked_messages ≢ some (sliced s))
    → IsChannel now c
    → Returns (λ d. IsChannel now d × IsGivenUp id c d) (process_message_ack c id)
unfolding process_message_ack ack_small give_up
process_message_ack-IsChannel now c id h v = go (lookup id c.unacked_messages) refl
  where
    go :
        (found : Option UnackedMessage)
        → lookup id c.unacked_messages ≡ found
        → Returns (λ d. IsChannel now d × IsGivenUp id c d) (process_message_ack c id)
    go none e = rw (e, process_message_ack) (v, λ j. lookup-itself id j c.unacked_messages none e)
    go (some (small m t)) e =
        rw (e, process_message_ack)
          (give_up-IsChannel now c id (small m t) v e, λ j. lookup-remove id j c.unacked_messages)
    go (some (sliced s)) e = absurd (h s e)

-- The slice is one of the message's.
abbrev pub HasSlice : ℕ → UnackedMessage → Type 0
HasSlice index (small message last_sent) = ⊥
HasSlice index (sliced s) = index < s.num_slices

-- What becomes of a message when its slice of that index is acknowledged: it is given up once all
-- its slices are acknowledged.
unfoldable pub acknowledge : ℕ → UnackedMessage → Option UnackedMessage
acknowledge index (small message last_sent) = some (small message last_sent)
acknowledge index (sliced s) =
    let acked = set s.acked index true in
    if all_true acked
    then none
    else some (sliced (record s { acked = acked; num_acked_slices = count_true acked }))

abbrev pub acknowledge_found : ℕ → Option UnackedMessage → Option UnackedMessage
acknowledge_found index none = none
acknowledge_found index (some u) = acknowledge index u

-- The message has become what the acknowledgement makes of it, and every other one is as it was.
abbrev pub IsAcknowledged : ℕ → ℕ → SendChannelReliable → SendChannelReliable → Type 0
IsAcknowledged id index c d =
    (j : ℕ)
    → lookup j d.unacked_messages ≡ (
        if j == id
        then acknowledge_found index (lookup id c.unacked_messages)
        else lookup j c.unacked_messages)

-- The slice was acknowledged before: the message stays.
acknowledge-again :
    (now index : ℕ) (s : SlicedMessage)
    → IsSliced now s
    → get_elem? s.acked index ≡ some true
    → acknowledge index (sliced s) ≡ some (sliced s)
unfolding acknowledge
acknowledge-again now index s v f =
    let same : set s.acked index true ≡ s.acked = set-itself s.acked index true f in
    let left : all_true s.acked ≡ false =
      all_true-count_true s.acked ∙ ground (arith, v.count, v.flags, v.unfinished) in
    rw (same, left) (ap (λ n. some (sliced (record s { num_acked_slices = n }))) (sym v.count))

-- The slice is acknowledged for the first time: the count of the code says whether it is the last.
acknowledge-first :
    (now index : ℕ) (s : SlicedMessage)
    → IsSliced now s
    → get_elem? s.acked index ≡ some false
    → acknowledge index (sliced s) ≡ (
        if add_u64 s.num_acked_slices 1 == s.num_slices
        then none
        else some (
            sliced (record s {
              acked = set s.acked index true;
              num_acked_slices = add_u64 s.num_acked_slices 1;
            })))
unfolding acknowledge
acknowledge-first now index s v f =
    let acked = set s.acked index true in
    let next : add_u64 s.num_acked_slices 1 ≡ s.num_acked_slices + 1 =
      add_u64-exact s.num_acked_slices 1
        (omega (arith, v.unfinished, v.number, v.message.bounded)) in
    let counted : count_true acked ≡ add_u64 s.num_acked_slices 1 =
      omega (arith, next, v.count, count_true-set s.acked index f) in
    let size : length acked ≡ s.num_slices = length-set s.acked index true ∙ v.flags in
    rw (all_true-count_true acked, counted, size) refl

count_ack-IsChannel :
    (now : ℕ) (c : SendChannelReliable) (id index : ℕ) (s : SlicedMessage)
    → lookup id c.unacked_messages ≡ some (sliced s)
    → get_elem? s.acked index ≡ some false
    → IsChannel now c
    → let t = record s {
      acked = set s.acked index true;
      num_acked_slices = add_u64 s.num_acked_slices 1;
    } in
      IsChannel now (count_ack c id t) × IsAcknowledged id index c (count_ack c id t)
unfolding count_ack give_up
count_ack-IsChannel now c id index s e f v =
    elim (Bool-cases (add_u64 s.num_acked_slices 1 == s.num_slices)) [
      | inl q ↦ rw q (gone, λ j. rw (e, becomes, q) (lookup-remove id j c.unacked_messages))
      | inr q ↦ rw q (
        record {
          exact = omega (
            arith,
            v.exact,
            sum_of-replace size_of 0 id (sliced t) (sliced s) c.unacked_messages v.rising e,
          );
          limited = v.limited;
          machine = v.machine;
          rising = insert-Ascending 0 id (sliced t) c.unacked_messages (omega arith) v.rising;
          fresh =
              Every-insert (λ k u. k < c.next_reliable_message_id) id (sliced t) c.unacked_messages
                (Every-lookup (λ k u. k < c.next_reliable_message_id) id (sliced s)
                  c.unacked_messages v.fresh e)
                v.fresh;
          entries =
              Every-insert (λ k u. IsUnacked now u) id (sliced t) c.unacked_messages (marked q)
                v.entries;
        },
        λ j. rw (e, becomes, q) (lookup-insert id j (sliced t) c.unacked_messages),
      )
    ]
  where
    t : SlicedMessage
    t = record s { acked = set s.acked index true; num_acked_slices = add_u64 s.num_acked_slices 1 }

    valid : IsSliced now s
    valid = Every-lookup (λ k u. IsUnacked now u) id (sliced s) c.unacked_messages v.entries e

    gone : IsChannel now (give_up c id (sliced s))
    gone = give_up-IsChannel now c id (sliced s) v e

    becomes :
        acknowledge index (sliced s)
        ≡ (if add_u64 s.num_acked_slices 1 == s.num_slices then none else some (sliced t))
    becomes = acknowledge-first now index s valid f

    next : add_u64 s.num_acked_slices 1 ≡ s.num_acked_slices + 1
    next =
        add_u64-exact s.num_acked_slices 1
          (omega (arith, valid.unfinished, valid.number, valid.message.bounded))

    marked : (add_u64 s.num_acked_slices 1 == s.num_slices) ≡ false → IsSliced now t
    marked q = record {
      number = valid.number;
      message = valid.message;
      flags = length-set s.acked index true ∙ valid.flags;
      times = valid.times;
      count = omega (arith, next, valid.count, count_true-set s.acked index f);
      unfinished = ground (arith, next, valid.unfinished);
      long = valid.long;
      past = valid.past;
    }

-- The acknowledgement of a slice keeps the channel in order. The slice is marked and the marks are
-- counted; the message is given up exactly if all its slices are then acknowledged, and every other
-- message stays as it was. It does not panic unless the id is that of a small message, or the index is not one
-- of the message's slices.
pub process_slice_message_ack-IsChannel :
    (now : ℕ) (c : SendChannelReliable) (id index : ℕ)
    → ((u : UnackedMessage) → lookup id c.unacked_messages ≡ some u → HasSlice index u)
    → IsChannel now c
    → Returns
        (λ d. IsChannel now d × IsAcknowledged id index c d)
        (process_slice_message_ack c id index)
unfolding process_slice_message_ack ack_slice
process_slice_message_ack-IsChannel now c id index h v = go (lookup id c.unacked_messages) refl
  where
    valid : (s : SlicedMessage) → lookup id c.unacked_messages ≡ some (sliced s) → IsSliced now s
    valid s e = Every-lookup (λ k u. IsUnacked now u) id (sliced s) c.unacked_messages v.entries e

    flag :
        (s : SlicedMessage) (b : Bool)
        → lookup id c.unacked_messages ≡ some (sliced s)
        → get_elem? s.acked index ≡ some b
        → Returns
            (λ d. IsChannel now d × IsAcknowledged id index c d)
            (ack_slice c id index (sliced s))
    flag s true e f =
        rw (f, ack_slice)
          (
            v,
            λ j.
                rw (e, acknowledge-again now index s (valid s e) f)
                  (lookup-itself id j c.unacked_messages (some (sliced s)) e),
          )
    flag s false e f = rw (f, ack_slice) (count_ack-IsChannel now c id index s e f v)

    go :
        (found : Option UnackedMessage)
        → lookup id c.unacked_messages ≡ found
        → Returns
            (λ d. IsChannel now d × IsAcknowledged id index c d)
            (process_slice_message_ack c id index)
    go none e =
        rw (e, process_slice_message_ack) (v, λ j. lookup-itself id j c.unacked_messages none e)
    go (some (small m t)) e = absurd (h (small m t) e)
    go (some (sliced s)) e =
        let (b, f) =
          get_elem?-some s.acked index (omega (arith, h (sliced s) e, (valid s e).flags)) in
        let step : process_slice_message_ack c id index ≡ ack_slice c id index (sliced s) =
          rw (e, process_slice_message_ack) refl in
        rw step (flag s b e f)
