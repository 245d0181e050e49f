-- ===== src/ReceiveReliable/Slices.antt =====
-- Slices reach an ordered channel: the message that they make up is stored as if it had come whole.
use renet.Base.{
  ℕ, ◌*◌, ◌<◌, ◌≤◌, ◌≡◌, refl, sym, ◌∙◌, true, List, [], ◌∷◌, Option, none, some, ◌==◌, length,
  get_elem?, take, arith, add_u64, sub_u64, IsU64, Bool-cases, inl, inr, Result, ok, ◌>>=◌,
}
use renet.Channel.{Ensures, Ensures-bind, Bytes, Slice, slice_size, ChannelError}
use renet.Map.{lookup, insert, remove, lookup-insert, lookup-remove}
use renet.Slice
use renet.Slice.{SliceConstructor, count_slices}
use renet.Slice.Store.{IsMessage, Holds, payload}
use renet.Slice.Assembly.{
  new-Holds, process_slice-valid, process_valid-Progress, Progress, whole, partial,
}
use renet.ReceiveReliable.{
  ReceiveChannelReliable, new, process_message, receive_message, process_slice, reserve, settle,
  constructor_of,
}
use renet.ReceiveReliable.Order.{
  Collects, Parts, Follows, Keeps, with_given, new-Follows, process_message-Keeps,
  process_message-Follows, receive_message-Follows,
}

-- The slice of a message that the sending side makes.
abbrev pub slice_of : Bytes → ℕ → ℕ → Slice
slice_of m id i = record {
  message_id = id;
  slice_index = i;
  num_slices = count_slices m;
  payload = payload m i;
}

module _ (sent : List Bytes) (delivered : List Bytes) where
  reserve-Follows :
      (c : ReceiveChannelReliable) (slice : Slice)
      → Follows sent delivered c
      → Ensures (Follows sent delivered) (reserve c slice)
  unfolding reserve
  reserve-Follows c slice f =
      let same : Follows sent delivered c = f in
      let taken : Follows sent delivered (record c {
        memory_usage_bytes = add_u64 c.memory_usage_bytes (slice.num_slices * slice_size);
      }) =
        (
          record {
            order = f.0.order;
            stored = f.0.stored;
            given = f.0.given;
            bounded = f.0.bounded;
          },
          f.1,
        ) in
      ground (arith, same, taken)

  module _ (m : Bytes) (id i : ℕ) (here : get_elem? sent id ≡ some m) (v : IsMessage m) where
    constructor_of-Holds :
        (c : ReceiveChannelReliable)
        → Follows sent delivered c
        → Holds m (constructor_of c (slice_of m id i))
    constructor_of-Holds c f = go (lookup id c.slices) refl
      where
        go :
            (found : Option SliceConstructor)
            → lookup id c.slices ≡ found
            → Holds m (elim found [ none ↦ Slice.new id (count_slices m) | some k ↦ k ])
        go none e = new-Holds m id v
        go (some k) e =
            let (n, there, w, h) = f.1 id k e in let same : n ≡ m = cc in rw (sym same) h

    inserted :
        (slices : List (ℕ × SliceConstructor)) (j : ℕ) (n d : SliceConstructor)
        → Holds m d
        → lookup j (insert id d slices) ≡ some n
        → Parts sent slices
        → Collects sent j n
    inserted slices j n d h e parts = elim (Bool-cases (j == id)) [
      | inl q ↦
          let same : j ≡ id = ground arith in
          let found : some d ≡ some n = sym (lookup-insert id j d slices ∙ rw q) ∙ e in
          let same_constructor : d ≡ n = cc in (m, rw same here, v, rw⁻¹ same_constructor h)
      | inr q ↦ parts j n (sym (lookup-insert id j d slices ∙ rw q) ∙ e)
    ]

    removed :
        (slices : List (ℕ × SliceConstructor)) (j : ℕ) (n d : SliceConstructor)
        → lookup j (remove id (insert id d slices)) ≡ some n
        → Parts sent slices
        → Collects sent j n
    removed slices j n d e parts =
        parts j n
          (ground (arith, lookup-remove id j (insert id d slices), lookup-insert id j d slices))

    settle-Follows :
        (c : ReceiveChannelReliable) (k : SliceConstructor)
        (r : Result ChannelError (SliceConstructor × Option Bytes))
        → Follows sent delivered c
        → Progress m k i r
        → Ensures (Follows sent delivered) (r >>= λ x. settle c (slice_of m id i) x)
    unfolding settle
    settle-Follows c k r f (whole d) =
        let c' : ReceiveChannelReliable = record c {
          slices = insert id d c.slices;
          memory_usage_bytes = sub_u64 c.memory_usage_bytes (count_slices m * slice_size);
        } in
        Ensures-bind (Keeps sent delivered c') (Follows sent delivered) (process_message c' m id)
          (λ x. ok (record x { slices = remove id x.slices }))
          (process_message-Keeps sent delivered c' m id here (record {
            order = f.0.order;
            stored = f.0.stored;
            given = f.0.given;
            bounded = f.0.bounded;
          }))
          (λ x w. (
            record {
              order = w.0.order;
              stored = w.0.stored;
              given = w.0.given;
              bounded = w.0.bounded;
            },
            λ j n e. removed c.slices j n d (rw (sym w.1) e) f.1,
          ))
    settle-Follows c k r f (partial d j h marks b q) = (
      record { order = f.0.order; stored = f.0.stored; given = f.0.given; bounded = f.0.bounded },
      λ l n e. inserted c.slices l n d h e f.1,
    )

  -- A slice that was cut from a message that was sent is taken, or refused for want of memory.
  pub process_slice-Follows :
      (c : ReceiveChannelReliable) (m : Bytes) (id i : ℕ)
      → get_elem? sent id ≡ some m
      → IsMessage m
      → i < count_slices m
      → Follows sent delivered c
      → Ensures (Follows sent delivered) (process_slice c (slice_of m id i))
  unfolding process_slice
  process_slice-Follows c m id i here v h f =
      let same : Follows sent delivered c = f in ground (arith, same, taken)
    where
      taken : Ensures (Follows sent delivered) (
          reserve c (slice_of m id i) >>= λ d.
          Slice.process_slice (constructor_of d (slice_of m id i)) i (payload m i) >>= λ r.
          settle d (slice_of m id i) r)
      taken =
          Ensures-bind (Follows sent delivered) (Follows sent delivered)
            (reserve c (slice_of m id i))
            (λ d. Slice.process_slice (constructor_of d (slice_of m id i)) i (payload m i) >>= λ r.
              settle d (slice_of m id i) r)
            (reserve-Follows c (slice_of m id i) f)
            (λ d g.
              let k : SliceConstructor = constructor_of d (slice_of m id i) in
              let w : Holds m k = constructor_of-Holds m id i here v d g in
              settle-Follows m id i here v d k (Slice.process_slice k i (payload m i)) g
                (rw (process_slice-valid m k i v w h) (process_valid-Progress m k i v w h)))

-- What happens to a receiving channel: the message sent under an id arrives, one of its slices
-- arrives, or the application takes a message.
pub data Event : Type 0 where
  message_arrives : Bytes → ℕ → Event
  slice_arrives : Bytes → ℕ → ℕ → Event
  application_takes : Event

-- A run ends with the first error; it gives what the application was handed.
unfoldable pub run :
    List Bytes
    → ReceiveChannelReliable
    → List Event
    → Result ChannelError (List Bytes × ReceiveChannelReliable)
run delivered c [] = ok (delivered, c)
run delivered c (message_arrives m id ∷ rest) = process_message c m id >>= λ d. run delivered d rest
run delivered c (slice_arrives m id i ∷ rest) =
    process_slice c (slice_of m id i) >>= λ d. run delivered d rest
run delivered c (application_takes ∷ rest) =
    run (with_given delivered (receive_message c).1) (receive_message c).0 rest

-- Everything that arrives was sent, in any order and any number of times.
abbrev pub Genuine : List Bytes → List Event → Type 0
Genuine sent [] = Unit {0}
Genuine sent (message_arrives m id ∷ rest) = (get_elem? sent id ≡ some m) × Genuine sent rest
Genuine sent (slice_arrives m id i ∷ rest) =
    (get_elem? sent id ≡ some m) × IsMessage m × (i < count_slices m) × Genuine sent rest
Genuine sent (application_takes ∷ rest) = Genuine sent rest

abbrev pub IsFront : List Bytes → List Bytes × ReceiveChannelReliable → Type 0
IsFront sent r =
    (r.0 ≡ take r.1.oldest_pending_message_id sent) × (r.1.oldest_pending_message_id ≤ length sent)

run-IsFront :
    (sent delivered : List Bytes) (c : ReceiveChannelReliable) (events : List Event)
    → IsU64 (length sent)
    → Genuine sent events
    → Follows sent delivered c
    → Ensures (IsFront sent) (run delivered c events)
unfolding run
run-IsFront sent delivered c [] u g f = (f.0.given, f.0.bounded)
run-IsFront sent delivered c (message_arrives m id ∷ rest) u g f =
    Ensures-bind (Follows sent delivered) (IsFront sent) (process_message c m id)
      (λ d. run delivered d rest) (process_message-Follows sent delivered c m id g.0 f)
      (λ d k. run-IsFront sent delivered d rest u g.1 k)
run-IsFront sent delivered c (slice_arrives m id i ∷ rest) u g f =
    Ensures-bind (Follows sent delivered) (IsFront sent) (process_slice c (slice_of m id i))
      (λ d. run delivered d rest) (process_slice-Follows sent delivered c m id i g.0 g.1 g.2 f)
      (λ d k. run-IsFront sent delivered d rest u g.3 k)
run-IsFront sent delivered c (application_takes ∷ rest) u g f =
    run-IsFront sent (with_given delivered (receive_message c).1) (receive_message c).0 rest u g
      (receive_message-Follows sent delivered c u f)

-- A new ordered channel that is given messages and slices of messages that were sent, in any order
-- and any number of times, never panics, and fails only when memory runs out. What it has handed
-- to the application is the front of what was sent, in order, for fewer than 2 ^ 64 messages of
-- which the sliced ones are 1 to 1,000,000 slices long.
pub run_in_order :
    (sent : List Bytes) (max : ℕ) (events : List Event)
    → IsU64 (length sent)
    → Genuine sent events
    → Ensures (IsFront sent) (run [] (new max true) events)
run_in_order sent max events u g =
    run-IsFront sent [] (new max true) events u g (new-Follows sent max)
