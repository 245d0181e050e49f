-- ===== src/SendReliable/History.antt =====
-- What a reliable channel holds, against the list of all messages that were queued on it.
use renet.Base.{
  ℕ, ◌+◌, ◌<◌, ◌≤◌, ◌≡◌, refl, ◌∙◌, Bool, true, false, List, [], ◌∷◌, ◌++◌, Option, none, some, ltb,
  ◌==◌, if◌then◌else◌, length, get_elem?, length-append, get_elem?-append_left, set, arith, add_u64,
  add_u64-exact, Bool-cases, inl, inr, ok, ◌^◌,
}
use renet.Channel.{OnReturn, Returns-OnReturn, Bytes, slice_size, Ensures, Returns, Returns-bind}
use renet.Map.{lookup, Every, Every-insert, Every-remove, Every-lookup}
use renet.Packet.{Octets}
use renet.Slice.Received.{get_elem?-below}
use renet.SendReliable.{
  SlicedMessage, UnackedMessage, small, sliced, SendChannelReliable, new, new_sliced, send_message,
  ack_small, process_message_ack, send_rounds, start, finish, get_packets_to_send, count_ack,
  ack_slice, process_slice_message_ack,
}
use renet.SendReliable.Loop.{message_of, Matches, send_rounds-Keeps}
use renet.SendReliable.Memory.{IsChannel, IsChannel-later}
use renet.SendReliable.Packets.{no_condition}

-- The message that was queued under an id.
abbrev pub Queued : List Bytes → ℕ → Bytes → Type 0
Queued queued id m = get_elem? queued id ≡ some m

-- The next id is the number of messages queued, each message held is the one queued under its id,
-- and a message of 1,000,000 slices can be added to the memory count.
pub record Holds (queued : List Bytes) (c : SendChannelReliable) : Type 0 where
  pub number : c.next_reliable_message_id ≡ length queued
  pub entries : Every (λ k u. Queued queued k (message_of u)) c.unacked_messages
  pub room : c.max_memory_usage_bytes + 1_200_000_000 < 2 ^ 64

pub new-Holds :
    (channel_id resend_time max : ℕ)
    → max + 1_200_000_000 < 2 ^ 64
    → Holds [] (new channel_id resend_time max)
unfolding new
new-Holds channel_id resend_time max h = record { number = refl; entries = tt; room = h }

Every-grow :
    (queued : List Bytes) (m : Bytes) (unacked : List (ℕ × UnackedMessage))
    → Every (λ k u. Queued queued k (message_of u)) unacked
    → Every (λ k u. Queued (queued ++ m ∷ []) k (message_of u)) unacked
Every-grow queued m [] e = tt
Every-grow queued m ((k, u) ∷ rest) e = (
  get_elem?-append_left queued (m ∷ []) k (get_elem?-below queued k (message_of u) e.0) ∙ e.0,
  Every-grow queued m rest e.1,
)

get_elem?-last :
    (queued : List Bytes) (m : Bytes) → get_elem? (queued ++ m ∷ []) (length queued) ≡ some m
get_elem?-last [] m = refl
get_elem?-last (x ∷ queued) m = get_elem?-last queued m

pub send_message-Holds :
    (queued : List Bytes) (c : SendChannelReliable) (m : Bytes)
    → c.next_reliable_message_id + 1 < 2 ^ 64
    → Holds queued c
    → Ensures (Holds (queued ++ m ∷ [])) (send_message c m)
unfolding send_message new_sliced
send_message-Holds queued c m h v =
    elim (Bool-cases (ltb c.max_memory_usage_bytes (add_u64 c.memory_usage_bytes (length m)))) [
      | inl e ↦ rw e refl
      | inr e ↦ rw e (record {
        room = v.room;
        number = omega (
          arith,
          add_u64-exact c.next_reliable_message_id 1 h,
          v.number,
          length-append queued (m ∷ []),
        );
        entries =
            Every-insert (λ k u. Queued (queued ++ m ∷ []) k (message_of u))
              c.next_reliable_message_id entry c.unacked_messages
              (rw (v.number, entry_message) (get_elem?-last queued m))
              (Every-grow queued m c.unacked_messages v.entries);
      })
    ]
  where
    entry : UnackedMessage
    entry = if ltb slice_size (length m) then new_sliced m else small m none

    entry_message : message_of entry ≡ m
    entry_message = elim (Bool-cases (ltb slice_size (length m))) [
      | inl e ↦ rw e refl
      | inr e ↦ rw e refl
    ]

pub process_message_ack-Holds :
    (queued : List Bytes) (c : SendChannelReliable) (id : ℕ) (m : Bytes) (t : Option ℕ)
    → lookup id c.unacked_messages ≡ some (small m t)
    → Holds queued c
    → Returns (Holds queued) (process_message_ack c id)
unfolding process_message_ack ack_small
process_message_ack-Holds queued c id m t e v =
    rw (e, process_message_ack)
      (record {
        number = v.number;
        room = v.room;
        entries =
            Every-remove (λ k u. Queued queued k (message_of u)) id c.unacked_messages v.entries;
      })

pub count_ack-Holds :
    (queued : List Bytes) (c : SendChannelReliable) (id : ℕ) (s : SlicedMessage)
    → Queued queued id s.message
    → Holds queued c
    → Holds queued (count_ack c id s)
unfolding count_ack
count_ack-Holds queued c id s q v = elim (Bool-cases (s.num_acked_slices == s.num_slices)) [
  | inl e ↦ rw e (record {
    number = v.number;
    room = v.room;
    entries = Every-remove (λ k u. Queued queued k (message_of u)) id c.unacked_messages v.entries;
  })
  | inr e ↦ rw e (record {
    number = v.number;
    room = v.room;
    entries =
        Every-insert (λ k u. Queued queued k (message_of u)) id (sliced s) c.unacked_messages q
          v.entries;
  })
]

pub process_slice_message_ack-Holds :
    (queued : List Bytes) (c : SendChannelReliable) (id index : ℕ) (s : SlicedMessage) (b : Bool)
    → lookup id c.unacked_messages ≡ some (sliced s)
    → get_elem? s.acked index ≡ some b
    → Holds queued c
    → Returns (Holds queued) (process_slice_message_ack c id index)
unfolding process_slice_message_ack ack_slice
process_slice_message_ack-Holds queued c id index s true e f v =
    rw (e, process_slice_message_ack) (rw (f, ack_slice) v)
process_slice_message_ack-Holds queued c id index s false e f v =
    rw (e, process_slice_message_ack)
      (rw (f, ack_slice)
        (count_ack-Holds queued c id
          (record s {
            acked = set s.acked index true;
            num_acked_slices = add_u64 s.num_acked_slices 1;
          })
          (Every-lookup (λ k u. Queued queued k (message_of u)) id (sliced s) c.unacked_messages
            v.entries e)
          v))

-- Messages that match keep their ids and contents.
Every-Matches :
    (queued : List Bytes) (now : ℕ) (m n : List (ℕ × UnackedMessage))
    → Matches now m n
    → Every (λ k u. Queued queued k (message_of u)) m
    → Every (λ k u. Queued queued k (message_of u)) n
Every-Matches queued now [] [] w e = tt
Every-Matches queued now [] (x ∷ n) w e = absurd w
Every-Matches queued now (x ∷ m) [] w e = absurd w
Every-Matches queued now ((k, u) ∷ m) ((j, x) ∷ n) w e =
    (rw (w.0, w.1) e.0, Every-Matches queued now m n w.3 e.1)

pub Holds-Matches :
    (queued : List Bytes) (now : ℕ) (c : SendChannelReliable) (n : List (ℕ × UnackedMessage))
    → Matches now c.unacked_messages n
    → Holds queued c
    → Holds queued (record c { unacked_messages = n })
Holds-Matches queued now c n w v = record {
  number = v.number;
  room = v.room;
  entries = Every-Matches queued now c.unacked_messages n w v.entries;
}

pub get_packets_to_send-Holds :
    (queued : List Bytes) (o : Octets) (t now : ℕ) (c : SendChannelReliable)
    (packet_sequence available_bytes : ℕ)
    → t ≤ now
    → IsChannel t c
    → Holds queued c
    → Returns
        (λ sent. Holds queued sent.channel)
        (get_packets_to_send o c packet_sequence available_bytes now)
unfolding get_packets_to_send finish
get_packets_to_send-Holds queued o t now c packet_sequence available_bytes h v w =
    Returns-bind (λ r. Unit {0} × Matches now c.unacked_messages r.1)
      (λ sent. Holds queued sent.channel)
      (send_rounds o c now c.unacked_messages (start packet_sequence available_bytes))
      (λ r. ok (finish c r))
      (send_rounds-Keeps o c now (λ l. Unit {0}) (λ id m. Unit {0}) (λ id i s l b x q k p. tt)
        (λ id m l q k b p. tt) c.unacked_messages (start packet_sequence available_bytes)
        (IsChannel-later t now c h v).entries (no_condition c.unacked_messages) tt)
      (λ r x. Holds-Matches queued now c r.1 x.1 w)

pub process_message_ack_kept :
    (queued : List Bytes) (c : SendChannelReliable) (id : ℕ)
    → Holds queued c
    → OnReturn (Holds queued) (process_message_ack c id)
unfolding process_message_ack ack_small
process_message_ack_kept queued c id v = go (lookup id c.unacked_messages) refl
  where
    go :
        (found : Option UnackedMessage)
        → lookup id c.unacked_messages ≡ found
        → OnReturn (Holds queued) (process_message_ack c id)
    go none e = rw (e, process_message_ack) v
    go (some (sliced s)) e = rw (e, process_message_ack) tt
    go (some (small m t)) e =
        Returns-OnReturn (Holds queued) (process_message_ack c id)
          (process_message_ack-Holds queued c id m t e v)

pub process_slice_message_ack_kept :
    (queued : List Bytes) (c : SendChannelReliable) (id index : ℕ)
    → Holds queued c
    → OnReturn (Holds queued) (process_slice_message_ack c id index)
unfolding process_slice_message_ack ack_slice
process_slice_message_ack_kept queued c id index v = go (lookup id c.unacked_messages) refl
  where
    flag :
        (s : SlicedMessage) (found : Option Bool)
        → lookup id c.unacked_messages ≡ some (sliced s)
        → get_elem? s.acked index ≡ found
        → OnReturn (Holds queued) (process_slice_message_ack c id index)
    flag s none e f = rw (e, process_slice_message_ack) (rw (f, ack_slice) tt)
    flag s (some b) e f =
        Returns-OnReturn (Holds queued) (process_slice_message_ack c id index)
          (process_slice_message_ack-Holds queued c id index s b e f v)

    go :
        (found : Option UnackedMessage)
        → lookup id c.unacked_messages ≡ found
        → OnReturn (Holds queued) (process_slice_message_ack c id index)
    go none e = rw (e, process_slice_message_ack) v
    go (some (small m t)) e = rw (e, process_slice_message_ack) tt
    go (some (sliced s)) e = flag s (get_elem? s.acked index) e refl
