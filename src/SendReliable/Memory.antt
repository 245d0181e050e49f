-- ===== src/SendReliable/Memory.antt =====
-- The memory that a reliable sending channel accounts for is that of its unacknowledged messages,
-- and an acknowledgement gives up its message.
use renet.Base.{
  ℕ, suc, ◌+◌, ◌<◌, ◌≤◌, ◌≡◌, ◌^◌, refl, sym, ap, ◌∙◌, false, List, [], ◌∷◌, Option, none, some,
  ltb, if◌then◌else◌, length, get_elem?, replicate, length-replicate, get_elem?-none, arith,
  add_u64, add_u64-exact, IsU64, Bool-cases, inl, inr, ok,
}
use renet.Channel.{Bytes, slice_size, Ensures, Returns, Returns-bind}
use renet.Map.{lookup, Ascending, sum_of, Every, Every-insert, insert-Ascending, sum_of-insert}
use renet.Packet.{Octets}
use renet.Slice.{count_slices}
use renet.Slice.Received.{count_true-replicate, get_elem?-replicate}
use renet.SendReliable.{
  UnackedMessage, small, SendChannelReliable, new_sliced, new, send_message, send_rounds, start,
  finish, get_packets_to_send,
}
use renet.SendReliable.Loop.{
  IsPast, IsUnacked, IsUnacked-later, message_of, Matches, send_rounds-Keeps,
}

abbrev pub size_of : UnackedMessage → ℕ
size_of u = length (message_of u)

-- The count is exact and within the limit, ids rise and are below the next one, and every message
-- is in order.
pub record IsChannel (now : ℕ) (c : SendChannelReliable) : Type 0 where
  pub exact : c.memory_usage_bytes ≡ sum_of size_of c.unacked_messages
  pub limited : c.memory_usage_bytes ≤ c.max_memory_usage_bytes
  pub machine : c.max_memory_usage_bytes < 2 ^ 64
  pub rising : Ascending 0 c.unacked_messages
  pub fresh : Every (λ k u. k < c.next_reliable_message_id) c.unacked_messages
  pub entries : Every (λ k u. IsUnacked now u) c.unacked_messages

pub new-IsChannel :
    (channel_id resend_time max now : ℕ)
    → IsU64 max
    → IsChannel now (new channel_id resend_time max)
unfolding new
new-IsChannel channel_id resend_time max now h = record {
  exact = refl;
  limited = omega arith;
  machine = h;
  rising = tt;
  fresh = tt;
  entries = tt;
}

lookup_fresh : (n : ℕ) (m : List (ℕ × UnackedMessage)) → Every (λ k u. k < n) m → lookup n m ≡ none
unfolding lookup
lookup_fresh n [] e = refl
lookup_fresh n ((k, u) ∷ m) e = ground (arith, lookup_fresh n m e.1)

Every-weaken :
    (n n' : ℕ) (m : List (ℕ × UnackedMessage))
    → n ≤ n'
    → Every (λ k u. k < n) m
    → Every (λ k u. k < n') m
Every-weaken n n' [] h e = tt
Every-weaken n n' ((k, u) ∷ m) h e = (omega (arith, e.0), Every-weaken n n' m h e.1)

-- The entry of a message that is queued.
abbrev entry_of : Bytes → UnackedMessage
entry_of m = if ltb slice_size (length m) then new_sliced m else small m none

entry_of-IsUnacked :
    (now : ℕ) (m : Bytes)
    → count_slices m ≤ 1_000_000
    → IsUnacked now (entry_of m) × (message_of (entry_of m) ≡ m)
unfolding new_sliced count_slices
entry_of-IsUnacked now m b = elim (Bool-cases (ltb slice_size (length m))) [
  | inl e ↦ rw e (
    record {
      number = refl;
      message = record { filled = ground arith; bounded = b };
      flags = length-replicate (count_slices m) false;
      times = length-replicate {A = Option ℕ} (count_slices m) none;
      count = sym (count_true-replicate (count_slices m));
      unfinished = ground arith;
      long = ground arith;
      past = λ i t q. never i t q;
    },
    refl,
  )
  | inr e ↦ rw e ((ground arith, tt), refl)
]
  where
    never :
        (i : ℕ) (t : Option ℕ)
        → get_elem? (replicate (count_slices m) none) i ≡ some t
        → IsPast now t
    never i none q = tt
    never i (some x) q = elim (Bool-cases (ltb i (count_slices m))) [
      | inl e ↦ cc (get_elem?-replicate {A = Option ℕ} (count_slices m) none i (ground arith), q)
      | inr e ↦ cc (
        get_elem?-none {A = Option ℕ} (replicate (count_slices m) none) i
            (ground (arith, length-replicate {A = Option ℕ} (count_slices m) none)),
        q,
      )
    ]

-- Queueing a message keeps the channel in order, or is refused for want of memory, for a message
-- of at most 1,000,000 slices whose length can be added to the count at all.
pub send_message-IsChannel :
    (now : ℕ) (c : SendChannelReliable) (m : Bytes)
    → c.memory_usage_bytes + length m < 2 ^ 64
    → c.next_reliable_message_id + 1 < 2 ^ 64
    → count_slices m ≤ 1_000_000
    → IsChannel now c
    → Ensures (IsChannel now) (send_message c m)
unfolding send_message
send_message-IsChannel now c m h k b v =
    elim (Bool-cases (ltb c.max_memory_usage_bytes (add_u64 c.memory_usage_bytes (length m)))) [
      | inl e ↦ rw e refl
      | inr e ↦
          let sum : add_u64 c.memory_usage_bytes (length m) ≡ c.memory_usage_bytes + length m =
            add_u64-exact c.memory_usage_bytes (length m) h in
          let next : add_u64 c.next_reliable_message_id 1 ≡ c.next_reliable_message_id + 1 =
            add_u64-exact c.next_reliable_message_id 1 k in
          let entry : IsUnacked now (entry_of m) × (message_of (entry_of m) ≡ m) =
            entry_of-IsUnacked now m b in
          let size : size_of (entry_of m) ≡ length m = ap length entry.1 in
          rw e (record {
            exact = omega (
              arith,
              sum,
              v.exact,
              size,
              sum_of-insert size_of c.next_reliable_message_id (entry_of m) c.unacked_messages
                  (lookup_fresh c.next_reliable_message_id c.unacked_messages v.fresh),
            );
            limited = ground arith;
            machine = v.machine;
            rising =
                insert-Ascending 0 c.next_reliable_message_id (entry_of m) c.unacked_messages
                  (omega arith) v.rising;
            fresh =
                Every-insert (λ j u. j < add_u64 c.next_reliable_message_id 1)
                  c.next_reliable_message_id (entry_of m) c.unacked_messages (omega arith)
                  (Every-weaken c.next_reliable_message_id (add_u64 c.next_reliable_message_id 1)
                    c.unacked_messages (omega arith) v.fresh);
            entries =
                Every-insert (λ j u. IsUnacked now u) c.next_reliable_message_id (entry_of m)
                  c.unacked_messages entry.0 v.entries;
          })
    ]

-- A list that matches another one has its ids and sizes, and is valid.
record Kept (now lo next : ℕ) (m n : List (ℕ × UnackedMessage)) : Type 0 where
  sizes : sum_of size_of n ≡ sum_of size_of m
  rise : Ascending lo m → Ascending lo n
  below : Every (λ k u. k < next) m → Every (λ k u. k < next) n
  valid : Every (λ k u. IsUnacked now u) n

Matches-Kept :
    (now lo next : ℕ) (m n : List (ℕ × UnackedMessage)) → Matches now m n → Kept now lo next m n
Matches-Kept now lo next [] [] w = record {
  sizes = refl;
  rise = λ a. a;
  below = λ b. b;
  valid = tt;
}
Matches-Kept now lo next [] (x ∷ n) w = absurd w
Matches-Kept now lo next (x ∷ m) [] w = absurd w
Matches-Kept now lo next ((k, u) ∷ m) ((j, x) ∷ n) w =
    let rest : Kept now (suc k) next m n = Matches-Kept now (suc k) next m n w.3 in
    let size : size_of x ≡ size_of u = ap length w.1 in
    record {
      sizes = omega (arith, rest.sizes, size);
      rise = λ a. rw w.0 (a.0, rest.rise a.1);
      below = λ b. rw w.0 (b.0, rest.below b.1);
      valid = (w.2, rest.valid);
    }

IsChannel-Matches :
    (now : ℕ) (c : SendChannelReliable) (n : List (ℕ × UnackedMessage))
    → IsChannel now c
    → Matches now c.unacked_messages n
    → IsChannel now (record c { unacked_messages = n })
IsChannel-Matches now c n v w =
    let k : Kept now 0 c.next_reliable_message_id c.unacked_messages n =
      Matches-Kept now 0 c.next_reliable_message_id c.unacked_messages n w in
    record {
      exact = v.exact ∙ sym k.sizes;
      limited = v.limited;
      machine = v.machine;
      rising = k.rise v.rising;
      fresh = k.below v.fresh;
      entries = k.valid;
    }

Every-later :
    (t now : ℕ) (m : List (ℕ × UnackedMessage))
    → t ≤ now
    → Every (λ k u. IsUnacked t u) m
    → Every (λ k u. IsUnacked now u) m
Every-later t now [] h e = tt
Every-later t now ((k, u) ∷ m) h e = (IsUnacked-later t now u h e.0, Every-later t now m h e.1)

-- A channel in order at a time is in order later.
pub IsChannel-later :
    (t now : ℕ) (c : SendChannelReliable) → t ≤ now → IsChannel t c → IsChannel now c
IsChannel-later t now c h v = record {
  exact = v.exact;
  limited = v.limited;
  machine = v.machine;
  rising = v.rising;
  fresh = v.fresh;
  entries = Every-later t now c.unacked_messages h v.entries;
}

no_more : (m : List (ℕ × UnackedMessage)) → Every (λ k u. Unit {0}) m
no_more [] = tt
no_more (x ∷ m) = (tt, no_more m)

-- Sending never fails and never panics when the time is not before an earlier sending. It keeps
-- the channel in order, and every message with its id: nothing is given up before it is
-- acknowledged.
pub get_packets_to_send-IsChannel :
    (o : Octets) (t now : ℕ) (c : SendChannelReliable) (packet_sequence available_bytes : ℕ)
    → t ≤ now
    → IsChannel t c
    → Returns
        (λ sent.
          IsChannel now sent.channel × Matches now c.unacked_messages sent.channel.unacked_messages)
        (get_packets_to_send o c packet_sequence available_bytes now)
unfolding get_packets_to_send finish
get_packets_to_send-IsChannel o t now c packet_sequence available_bytes h v =
    let w : IsChannel now c = IsChannel-later t now c h v in
    Returns-bind (λ r. Unit {0} × Matches now c.unacked_messages r.1)
      (λ sent.
        IsChannel now sent.channel × Matches now c.unacked_messages sent.channel.unacked_messages)
      (send_rounds o c now c.unacked_messages (start packet_sequence available_bytes))
      (λ r. ok (finish c r))
      (send_rounds-Keeps o c now (λ l. Unit {0}) (λ id m. Unit {0}) (λ id i s l b x q k p. tt)
        (λ id m l q k b p. tt) c.unacked_messages (start packet_sequence available_bytes) w.entries
        (no_more c.unacked_messages) tt)
      (λ r x. (IsChannel-Matches now c r.1 w x.1, x.1))
