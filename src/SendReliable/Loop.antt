-- ===== src/SendReliable/Loop.antt =====
-- The rounds of `get_packets_to_send`: none panics, and the messages stay in order.
use renet.Base.{
  ℕ, zero, suc, ◌+◌, ◌%◌, ◌<◌, ◌≤◌, ◌≡◌, refl, sym, ap, ◌∙◌, Bool, true, false, List, [], ◌∷◌,
  Option, none, some, ltb, ◌==◌, if◌then◌else◌, length, get_elem?, set, get_elem?-set_self,
  get_elem?-set_ne, length-set, arith, Bool-cases, inl, inr, Result, ok, err, panic, ◌>>=◌,
}
use renet.Channel.{Bytes, slice_size, ChannelError, Returns, Returns-bind}
use renet.Map.{Every}
use renet.Packet.{Octets}
use renet.Slice.{count_slices}
use renet.Slice.Received.{count_true, get_elem?-some}
use renet.Slice.Store.{IsMessage}
use renet.SendReliable.{
  SlicedMessage, UnackedMessage, small, sliced, SendChannelReliable, Sending, sent_recently,
  push_slice, mark_sent, send_due, send_slice, send_slices, send_small, send_unacked, send_rounds,
}

-- The time of the last sending is not after the present.
abbrev pub IsPast : ℕ → Option ℕ → Type 0
IsPast now none = Unit {0}
IsPast now (some t) = t ≤ now

-- A message in slices: a flag and a time for each, the acknowledged ones counted and not yet all.
pub record IsSliced (now : ℕ) (s : SlicedMessage) : Type 0 where
  pub number : s.num_slices ≡ count_slices s.message
  pub message : IsMessage s.message
  pub flags : length s.acked ≡ s.num_slices
  pub times : length s.last_sent ≡ s.num_slices
  pub count : s.num_acked_slices ≡ count_true s.acked
  pub unfinished : s.num_acked_slices < s.num_slices
  pub long : slice_size < length s.message
  pub past : (i : ℕ) (t : Option ℕ) → get_elem? s.last_sent i ≡ some t → IsPast now t

abbrev pub IsUnacked : ℕ → UnackedMessage → Type 0
IsUnacked now (small message last_sent) = (length message ≤ slice_size) × IsPast now last_sent
IsUnacked now (sliced s) = IsSliced now s

pub IsUnacked-later : (t now : ℕ) (u : UnackedMessage) → t ≤ now → IsUnacked t u → IsUnacked now u
IsUnacked-later t now (small message none) h v = (v.0, tt)
IsUnacked-later t now (small message (some last)) h v = (v.0, omega (arith, v.1))
IsUnacked-later t now (sliced s) h v = record {
  number = v.number;
  message = v.message;
  flags = v.flags;
  times = v.times;
  count = v.count;
  unfinished = v.unfinished;
  long = v.long;
  past = λ i last e. later last (v.past i last e);
}
  where
    later : (last : Option ℕ) → IsPast t last → IsPast now last
    later none p = tt
    later (some at) p = omega arith

abbrev pub message_of : UnackedMessage → Bytes
message_of (small message last_sent) = message
message_of (sliced s) = s.message

-- The messages of the second list are those of the first under the same ids, and valid.
abbrev pub Matches : ℕ → List (ℕ × UnackedMessage) → List (ℕ × UnackedMessage) → Type 0
Matches now [] [] = Unit {0}
Matches now [] (x ∷ n) = ⊥
Matches now (x ∷ m) [] = ⊥
Matches now ((k, u) ∷ m) ((j, w) ∷ n) =
    (j ≡ k) × (message_of w ≡ message_of u) × IsUnacked now w × Matches now m n

sent_recently-Returns :
    (resend now : ℕ) (t : Option ℕ)
    → IsPast now t
    → Returns (λ b. Unit {0}) (sent_recently resend now t)
unfolding sent_recently
sent_recently-Returns resend now none h = tt
sent_recently-Returns resend now (some t) h = ground arith

mark_sent-IsSliced :
    (now i : ℕ) (s : SlicedMessage)
    → i < s.num_slices
    → IsSliced now s
    → IsSliced now (mark_sent now i s)
unfolding mark_sent
mark_sent-IsSliced now i s h v = record {
  number = v.number;
  message = v.message;
  flags = v.flags;
  times = length-set s.last_sent i (some now) ∙ v.times;
  count = v.count;
  unfinished = v.unfinished;
  long = v.long;
  past = λ j t e. elim (Bool-cases (i == j)) [
    | inl q ↦
        let same : i ≡ j = ground arith in
        let found : some (some now) ≡ some t =
          sym (get_elem?-set_self s.last_sent i (some now) (omega (arith, v.times)))
          ∙ (ap (get_elem? (set s.last_sent i (some now))) same ∙ e) in
        let value : t ≡ some now = cc in let now_past : now ≤ now = omega arith in rw value now_past
    | inr q ↦
        v.past j t
          (sym (get_elem?-set_ne s.last_sent {i = i} {j = j} (some now) (ground arith)) ∙ e)
  ];
}

-- What holds of the loop's variables, kept by each of the steps that send something.
module _ (o : Octets) (c : SendChannelReliable) (now : ℕ) (P : Sending → Type 0)
    (Q : ℕ → Bytes → Type 0)
    (push : (id i : ℕ) (s : SlicedMessage) (l : Sending)
      → slice_size ≤ l.available_bytes
      → IsSliced now s
      → Q id s.message
      → i < s.num_slices
      → P l
      → P (push_slice c id s i l))
    (small_kept : (id : ℕ) (m : Bytes) (l : Sending)
      → Q id m
      → length m ≤ slice_size
      → length m ≤ l.available_bytes
      → P l
      → P (send_small o c id m l)) where
  -- The message is the same one after the round.
  abbrev KeepsSliced : SlicedMessage → Sending × SlicedMessage → Type 0
  KeepsSliced s r = P r.0 × IsSliced now r.1 × (r.1.message ≡ s.message)

  send_due-Keeps :
      (id i : ℕ) (s : SlicedMessage) (l : Sending) (recent : Bool)
      → slice_size ≤ l.available_bytes
      → IsSliced now s
      → Q id s.message
      → i < s.num_slices
      → P l
      → KeepsSliced s (send_due c now id i s l recent)
  unfolding send_due mark_sent
  send_due-Keeps id i s l true b v a h p = (p, v, refl)
  send_due-Keeps id i s l false b v a h p =
      (push id i s l b v a h p, mark_sent-IsSliced now i s h v, refl)

  send_slice-Keeps :
      (id i : ℕ) (s : SlicedMessage) (l : Sending)
      → slice_size ≤ l.available_bytes
      → IsSliced now s
      → Q id s.message
      → i < s.num_slices
      → P l
      → Returns (KeepsSliced s) (send_slice c now id i s l)
  unfolding send_slice
  send_slice-Keeps id i s l b v a h p =
      flag (get_elem?-some s.acked i (omega (arith, v.flags)))
        (get_elem?-some s.last_sent i (omega (arith, v.times)))
    where
      flag :
          (f : Bool) × (get_elem? s.acked i ≡ some f)
          → (t : Option ℕ) × (get_elem? s.last_sent i ≡ some t)
          → Returns (KeepsSliced s) (send_slice c now id i s l)
      flag (true, e) (t, q) = rw (e, send_slice) (p, v, refl)
      flag (false, e) (t, q) =
          rw (e, q, send_slice)
            (Returns-bind (λ b. Unit {0}) (KeepsSliced s) (sent_recently c.resend_time now t)
              (λ recent. ok (send_due c now id i s l recent))
              (sent_recently-Returns c.resend_time now t (v.past i t q))
              (λ recent u. send_due-Keeps id i s l recent b v a h p))

  send_slices-Keeps :
      (id start left i : ℕ) (s : SlicedMessage) (l : Sending)
      → IsSliced now s
      → Q id s.message
      → P l
      → Returns (KeepsSliced s) (send_slices c now id start left i s l)
  unfolding send_slices
  send_slices-Keeps id start zero i s l v a p = (p, v, refl)
  send_slices-Keeps id start (suc left) i s l v a p =
      elim (Bool-cases (ltb l.available_bytes slice_size)) [
        | inl e ↦ rw e (p, v, refl)
        | inr e ↦ rw e (
            let k : ℕ = (start + i) % s.num_slices in
            Returns-bind (KeepsSliced s) (KeepsSliced s) (send_slice c now id k s l)
              (λ r. send_slices c now id start left (i + 1) r.1 r.0)
              (send_slice-Keeps id k s l (ground arith) v a (omega (arith, v.unfinished)) p)
              (λ r w.
                same_message r (send_slices c now id start left (i + 1) r.1 r.0) w
                  (send_slices-Keeps id start left (i + 1) r.1 r.0 w.1 (rw w.2 a) w.0)))
      ]
    where
      same_message :
          (r : Sending × SlicedMessage) (q : Result ChannelError (Sending × SlicedMessage))
          → KeepsSliced s r
          → Returns (KeepsSliced r.1) q
          → Returns (KeepsSliced s) q
      same_message r (ok a) w z = (z.0, z.1, z.2 ∙ w.2)
      same_message r (err e) w z = absurd z
      same_message r panic w z = absurd z

  abbrev KeepsUnacked : UnackedMessage → Sending × UnackedMessage → Type 0
  KeepsUnacked u r = P r.0 × IsUnacked now r.1 × (message_of r.1 ≡ message_of u)

  send_unacked-Keeps :
      (id : ℕ) (u : UnackedMessage) (l : Sending)
      → IsUnacked now u
      → Q id (message_of u)
      → P l
      → Returns (KeepsUnacked u) (send_unacked o c now id u l)
  unfolding send_unacked
  send_unacked-Keeps id (small m t) l v a p = elim (Bool-cases (ltb l.available_bytes (length m))) [
    | inl e ↦ rw e (p, v, refl)
    | inr e ↦ rw e (
        Returns-bind (λ b. Unit {0}) (KeepsUnacked (small m t)) (sent_recently c.resend_time now t)
          (λ recent.
            ok (if recent then (l, small m t) else (send_small o c id m l, small m (some now))))
          (sent_recently-Returns c.resend_time now t v.1)
          (λ recent u. sent recent (small_kept id m l a v.0 (ground arith) p)))
  ]
    where
      sent :
          (recent : Bool)
          → P (send_small o c id m l)
          → KeepsUnacked
              (small m t)
              (if recent then (l, small m t) else (send_small o c id m l, small m (some now)))
      sent true q = (p, v, refl)
      sent false q = (q, (v.0, omega arith), refl)
  send_unacked-Keeps id (sliced s) l v a p =
      Returns-bind (KeepsSliced s) (KeepsUnacked (sliced s))
        (send_slices c now id s.next_slice_to_send s.num_slices 0 s l) (λ r. ok (r.0, sliced r.1))
        (send_slices-Keeps id s.next_slice_to_send s.num_slices 0 s l v a p) (λ r w. w)

  abbrev KeepsAll : List (ℕ × UnackedMessage) → Sending × List (ℕ × UnackedMessage) → Type 0
  KeepsAll m r = P r.0 × Matches now m r.1

  -- The rounds keep the messages, each under its id, and what `P` says of the loop's variables.
  pub send_rounds-Keeps :
      (m : List (ℕ × UnackedMessage)) (l : Sending)
      → Every (λ k u. IsUnacked now u) m
      → Every (λ k u. Q k (message_of u)) m
      → P l
      → Returns (KeepsAll m) (send_rounds o c now m l)
  unfolding send_rounds
  send_rounds-Keeps [] l v a p = (p, tt)
  send_rounds-Keeps ((k, u) ∷ m) l v a p =
      Returns-bind (KeepsUnacked u) (KeepsAll ((k, u) ∷ m)) (send_unacked o c now k u l)
        (λ r. send_rounds o c now m r.0 >>= λ q. ok (q.0, (k, r.1) ∷ q.1))
        (send_unacked-Keeps k u l v.0 a.0 p)
        (λ r w.
          Returns-bind (KeepsAll m) (KeepsAll ((k, u) ∷ m)) (send_rounds o c now m r.0)
            (λ q. ok (q.0, (k, r.1) ∷ q.1)) (send_rounds-Keeps m r.0 v.1 a.1 w.0)
            (λ q z. (z.0, (refl, w.2, w.1, z.1))))
