-- ===== src/ReceiveUnreliable/Discard.antt =====
-- Slices that are discarded: none of the calls panics on a missing entry.
use renet.Base.{
  length, ℕ, ◌-◌, ◌*◌, suc, ◌<◌, ◌≤◌, ◌≡◌, ◌≢◌, refl, List, [], ◌∷◌, Option, none, some, ltb, leb,
  arith, add_u64, Bool-cases, inl, inr, Result, ok, err, panic, ◌>>=◌,
}
use renet.Channel.{Bytes, Slice, slice_size, ChannelError, Returns, Returns-bind}
use renet.Map.{
  lookup, remove, lookup-insert, lookup-remove, Ascending, Every, Every-insert, Every-remove,
  insert-Ascending, remove-Ascending,
}
use renet.Slice
use renet.Slice.{SliceConstructor}
use renet.ReceiveUnreliable.{
  process_message, ReceiveChannelUnreliable, settle, take_slice, process_slice, lost_messages,
  discard, discard_all, discard_incomplete_old_slices, new,
}

-- Every message with a time of its last slice has a constructor, and no time is in the future.
pub record IsTimed (now : ℕ) (c : ReceiveChannelUnreliable) : Type 0 where
  pub rising : Ascending 0 c.slices_last_received
  pub past : Every (λ k t. t ≤ now) c.slices_last_received
  pub present : (id : ℕ) → lookup id c.slices_last_received ≢ none → lookup id c.slices ≢ none

pub new-IsTimed : (channel_id max now : ℕ) → IsTimed now (new channel_id max)
unfolding new lookup
new-IsTimed channel_id max now = record {
  rising = tt;
  past = tt;
  present = λ id h. absurd (h refl);
}

-- A slice that is taken in keeps this, whether its message is complete or not.
pub settle-IsTimed :
    (now : ℕ) (c : ReceiveChannelUnreliable) (slice : Slice) (r : SliceConstructor × Option Bytes)
    → IsTimed now c
    → IsTimed now (settle c slice now r)
unfolding settle
settle-IsTimed now c slice (k, none) v = record {
  rising = insert-Ascending 0 slice.message_id now c.slices_last_received (omega arith) v.rising;
  past =
      Every-insert (λ j t. t ≤ now) slice.message_id now c.slices_last_received (omega arith)
        v.past;
  present = λ id h e.
      v.present id
        (λ q. h (
          ground (
            arith,
            lookup-insert slice.message_id id now c.slices_last_received,
            lookup-insert slice.message_id id k c.slices,
          )))
        (ground (arith, lookup-insert slice.message_id id k c.slices));
}
settle-IsTimed now c slice (k, some m) v = record {
  rising = remove-Ascending 0 slice.message_id c.slices_last_received v.rising;
  past = Every-remove (λ j t. t ≤ now) slice.message_id c.slices_last_received v.past;
  present = λ id h e.
      v.present id
        (λ q. h (ground (arith, lookup-remove slice.message_id id c.slices_last_received)))
        (ground (
          arith,
          lookup-remove slice.message_id id c.slices,
          lookup-remove slice.message_id id c.slices_last_received,
        ));
}

-- Ids that rise from `lo` on, each a key of the map.
abbrev Listed : ℕ → List (ℕ × ℕ) → List ℕ → Type 0
Listed lo m [] = Unit {0}
Listed lo m (i ∷ is) = (lo ≤ i) × (lookup i m ≢ none) × Listed (suc i) m is

Listed-cons :
    (lo k t : ℕ) (m : List (ℕ × ℕ)) (is : List ℕ)
    → k < lo
    → Listed lo m is
    → Listed lo ((k, t) ∷ m) is
unfolding lookup
Listed-cons lo k t m [] h l = tt
Listed-cons lo k t m (i ∷ is) h l =
    (l.0, λ q. l.1 (ground arith), Listed-cons (suc i) k t m is (omega (arith, l.0)) l.2)

Listed-remove :
    (lo k : ℕ) (m : List (ℕ × ℕ)) (is : List ℕ)
    → k < lo
    → Listed lo m is
    → Listed lo (remove k m) is
Listed-remove lo k m [] h l = tt
Listed-remove lo k m (i ∷ is) h l = (
  l.0,
  λ q. l.1 (ground (arith, lookup-remove k i m)),
  Listed-remove (suc i) k m is (omega (arith, l.0)) l.2,
)

lost_messages-Listed :
    (lo now : ℕ) (m : List (ℕ × ℕ))
    → Ascending lo m
    → Every (λ k t. t ≤ now) m
    → Returns (Listed lo m) (lost_messages now m)
unfolding lost_messages lookup
lost_messages-Listed lo now [] a p = tt
lost_messages-Listed lo now ((k, t) ∷ m) a p = elim (Bool-cases (ltb now t)) [
  | inl e ↦ absurd (ground (arith, p.0))
  | inr e ↦ rw e (elim (Bool-cases (leb 3_000_000_000 (now - t))) [
    | inl q ↦ rw q (
        Returns-bind (Listed (suc k) m) (Listed lo ((k, t) ∷ m)) (lost_messages now m)
          (λ ids. ok (k ∷ ids)) (lost_messages-Listed (suc k) now m a.1 p.1)
          (λ ids l. (a.0, (λ n. ground arith), Listed-cons (suc k) k t m ids (omega arith) l)))
    | inr q ↦ rw q tt
  ])
]

discard-IsTimed :
    (now : ℕ) (c : ReceiveChannelUnreliable) (id : ℕ) (is : List ℕ)
    → lookup id c.slices_last_received ≢ none
    → Listed (suc id) c.slices_last_received is
    → IsTimed now c
    → Returns (λ d. IsTimed now d × Listed (suc id) d.slices_last_received is) (discard c id)
unfolding discard
discard-IsTimed now c id is h l v = go (lookup id c.slices) refl
  where
    go :
        (found : Option SliceConstructor)
        → lookup id c.slices ≡ found
        → Returns (λ d. IsTimed now d × Listed (suc id) d.slices_last_received is) (discard c id)
    go none e = absurd (v.present id h e)
    go (some k) e =
        rw (e, discard)
          (
            record {
              rising = remove-Ascending 0 id c.slices_last_received v.rising;
              past = Every-remove (λ j t. t ≤ now) id c.slices_last_received v.past;
              present = λ j n q.
                  v.present j (λ z. n (ground (arith, lookup-remove id j c.slices_last_received)))
                    (ground (
                      arith,
                      lookup-remove id j c.slices,
                      lookup-remove id j c.slices_last_received,
                    ));
            },
            Listed-remove (suc id) id c.slices_last_received is (omega arith) l,
          )

discard_all-IsTimed :
    (now lo : ℕ) (c : ReceiveChannelUnreliable) (is : List ℕ)
    → Listed lo c.slices_last_received is
    → IsTimed now c
    → Returns (IsTimed now) (discard_all c is)
unfolding discard_all
discard_all-IsTimed now lo c [] l v = v
discard_all-IsTimed now lo c (i ∷ is) l v =
    Returns-bind (λ d. IsTimed now d × Listed (suc i) d.slices_last_received is) (IsTimed now)
      (discard c i) (λ d. discard_all d is) (discard-IsTimed now c i is l.1 l.2 v)
      (λ d k. discard_all-IsTimed now (suc i) d is k.1 k.0)

-- Discarding old slices never panics: every message that has a time of its last slice has a
-- constructor, which the call keeps true, for times that are not in the future.
pub discard_incomplete_old_slices-IsTimed :
    (now : ℕ) (c : ReceiveChannelUnreliable)
    → IsTimed now c
    → Returns (IsTimed now) (discard_incomplete_old_slices c now)
unfolding discard_incomplete_old_slices
discard_incomplete_old_slices-IsTimed now c v =
    Returns-bind (Listed 0 c.slices_last_received) (IsTimed now)
      (lost_messages now c.slices_last_received) (λ ids. discard_all c ids)
      (lost_messages-Listed 0 now c.slices_last_received v.rising v.past)
      (λ ids l. discard_all-IsTimed now 0 c ids l v)

-- What a call of `process_slice` leaves when it has a result.
abbrev pub Kept : ℕ → Result ChannelError ReceiveChannelUnreliable → Type 0
Kept now r = (d : ReceiveChannelUnreliable) → r ≡ ok d → IsTimed now d

take_slice-Kept :
    (now : ℕ) (c : ReceiveChannelUnreliable) (slice : Slice) (k : SliceConstructor)
    → IsTimed now c
    → Kept now (take_slice c slice now k)
unfolding take_slice
take_slice-Kept now c slice k v d e = go (Slice.process_slice k slice.slice_index slice.payload) e
  where
    go :
        (r : Result ChannelError (SliceConstructor × Option Bytes))
        → (r >>= λ x. ok (settle c slice now x)) ≡ ok d
        → IsTimed now d
    go (ok x) q =
        let same : d ≡ settle c slice now x = cc in rw same (settle-IsTimed now c slice x v)
    go (err x) q = cc
    go panic q = cc

-- A slice that is processed keeps it true that every message with a time of its last slice has a
-- constructor.
pub process_slice-IsTimed :
    (now : ℕ) (c : ReceiveChannelUnreliable) (slice : Slice)
    → IsTimed now c
    → Kept now (process_slice c slice now)
unfolding process_slice
process_slice-IsTimed now c slice v = go (lookup slice.message_id c.slices) refl
  where
    go :
        (found : Option SliceConstructor)
        → lookup slice.message_id c.slices ≡ found
        → Kept now (process_slice c slice now)
    go (some k) e = rw (e, process_slice) (take_slice-Kept now c slice k v)
    go none e =
        rw (e, process_slice)
          (elim (Bool-cases (
            ltb c.max_memory_usage_bytes
              (add_u64 c.memory_usage_bytes (slice.num_slices * slice_size)))) [
                | inl q ↦ rw q (λ d s. let same : d ≡ c = cc in rw same v)
                | inr q ↦ rw q (
                    take_slice-Kept now
                      (record c {
                        memory_usage_bytes =
                            add_u64 c.memory_usage_bytes (slice.num_slices * slice_size);
                      })
                      slice (Slice.new slice.message_id slice.num_slices)
                      (record { rising = v.rising; past = v.past; present = v.present }))
              ])

pub process_message-IsTimed :
    (now : ℕ) (c : ReceiveChannelUnreliable) (m : Bytes)
    → IsTimed now c
    → IsTimed now (process_message c m)
unfolding process_message
process_message-IsTimed now c m v =
    elim (Bool-cases (ltb c.max_memory_usage_bytes (add_u64 c.memory_usage_bytes (length m)))) [
      | inl e ↦ rw e v
      | inr e ↦ rw e (record { rising = v.rising; past = v.past; present = v.present })
    ]
