-- ===== src/Connection/Incoming/Acks.antt =====
-- An acknowledgement never panics: every packet it names is found once, its channel is there, and
-- the channel's messages are of the kind that was noted.
use renet.Base.{
  ℕ, suc, ◌+◌, ◌-◌, ◌<◌, ◌≤◌, ◌≡◌, ◌≢◌, refl, ap, ◌∙◌, ◌&&◌, ltb, leb, Bool-cases, inl, inr, List,
  [], ◌∷◌, ◌++◌, Option, none, some, length, get_elem?, arith, Result, ok, ◌>>=◌,
}
use renet.Ack.{AckRange}
use renet.Ack.Order.{Separated}
use renet.Channel.{Bytes, slice_size, ChannelError, Returns, Returns-bind, Returns-map, After-and}
use renet.Float.{Float}
use renet.Map.{
  lookup, remove, Ascending, Every-lookup, Every-remove, remove-Ascending, lookup-remove,
}
use renet.Slice.{count_slices}
use renet.Stats
use renet.SendReliable.{
  SendChannelReliable, UnackedMessage, SlicedMessage, small, sliced, process_message_ack,
  process_slice_message_ack,
}
use renet.SendReliable.Loop.{IsUnacked, IsSliced, message_of}
use renet.SendReliable.Memory.{IsChannel}
use renet.SendReliable.Acks.{
  process_message_ack-IsChannel, process_slice_message_ack-IsChannel, HasSlice, IsGivenUp,
  IsAcknowledged,
}
use renet.SendReliable.History.{
  Queued, Holds, process_message_ack_kept, process_slice_message_ack_kept,
}
use renet.SendReliable.Identity.{
  process_message_ack-channel_id, process_slice_message_ack-channel_id,
}
use renet.Connection.{
  RenetClient, SendChannel, PacketSent, PacketSentInfo, untracked, reliable_messages,
  reliable_slice_message, ack_ranges, with_send_channel,
}
use renet.Connection.Invariant.{
  IsReliableAt, IsSender, AreSmall, IsInfo, IsSent, IsClient, with_sender-IsClient,
}
use renet.Connection.Incoming.{
  sequences_in, new_acks, ack_messages, process_info, process_new_ack, process_new_acks, on_sender,
  update_rtt,
}

-- The message that is held under an id is the one that was queued under it.
held :
    (queued : List Bytes) (c : SendChannelReliable) (i : ℕ) (m : Bytes) (u : UnackedMessage)
    → Holds queued c
    → Queued queued i m
    → lookup i c.unacked_messages ≡ some u
    → message_of u ≡ m
held queued c i m u v q e =
    let there : get_elem? queued i ≡ some (message_of u) =
      Every-lookup (λ k x. Queued queued k (message_of x)) i u c.unacked_messages v.entries e in
    cc

-- A queued message that is small is not held in slices, and a long one is not held whole.
small-ne-sliced :
    (queued : List Bytes) (now id : ℕ) (c : SendChannelReliable) (i : ℕ) (m : Bytes)
    (s : SlicedMessage)
    → IsSender queued now id c
    → Queued queued i m
    → length m ≤ slice_size
    → lookup i c.unacked_messages ≢ some (sliced s)
small-ne-sliced queued now id c i m s v q h e =
    let same : s.message ≡ m = held queued c i m (sliced s) v.history q e in
    let valid : IsSliced now s =
      Every-lookup (λ k x. IsUnacked now x) i (sliced s) c.unacked_messages v.in_order.entries e in
    let long : slice_size < length m = rw⁻¹ same valid.long in absurd (omega arith)

long-HasSlice :
    (queued : List Bytes) (now id : ℕ) (c : SendChannelReliable) (i j : ℕ) (m : Bytes)
    (u : UnackedMessage)
    → IsSender queued now id c
    → Queued queued i m
    → slice_size < length m
    → j < count_slices m
    → lookup i c.unacked_messages ≡ some u
    → HasSlice j u
long-HasSlice queued now id c i j m (small n t) v q h k e =
    let same : n ≡ m = held queued c i m (small n t) v.history q e in
    let valid : IsUnacked now (small n t) =
      Every-lookup (λ k x. IsUnacked now x) i (small n t) c.unacked_messages v.in_order.entries e in
    let short : length m ≤ slice_size = rw⁻¹ same valid.0 in absurd (omega arith)
long-HasSlice queued now id c i j m (sliced s) v q h k e =
    let same : s.message ≡ m = held queued c i m (sliced s) v.history q e in
    let valid : IsSliced now s =
      Every-lookup (λ k x. IsUnacked now x) i (sliced s) c.unacked_messages v.in_order.entries e in
    let number : s.num_slices ≡ count_slices m = valid.number ∙ ap count_slices same in omega arith

module _ (queued : List Bytes) (now id : ℕ) where
  process_message_ack-IsSender :
      (c : SendChannelReliable) (i : ℕ) (m : Bytes)
      → Queued queued i m
      → length m ≤ slice_size
      → IsSender queued now id c
      → Returns (IsSender queued now id) (process_message_ack c i)
  process_message_ack-IsSender c i m q h v =
      Returns-map
        (λ d.
          ((IsChannel now d × IsGivenUp i c d) × Holds queued d) × (d.channel_id ≡ c.channel_id))
        (IsSender queued now id) (process_message_ack c i)
        (After-and (λ e. ⊥) (λ d. (IsChannel now d × IsGivenUp i c d) × Holds queued d)
          (λ d. d.channel_id ≡ c.channel_id) (process_message_ack c i)
          (After-and (λ e. ⊥) (λ d. IsChannel now d × IsGivenUp i c d) (Holds queued)
            (process_message_ack c i)
            (process_message_ack-IsChannel now c i
              (λ s e. small-ne-sliced queued now id c i m s v q h e) v.in_order)
            (process_message_ack_kept queued c i v.history))
          (process_message_ack-channel_id c i))
        (λ d k. record { identity = k.1 ∙ v.identity; in_order = k.0.0.0; history = k.0.1 })

  process_slice_message_ack-IsSender :
      (c : SendChannelReliable) (i j : ℕ) (m : Bytes)
      → Queued queued i m
      → slice_size < length m
      → j < count_slices m
      → IsSender queued now id c
      → Returns (IsSender queued now id) (process_slice_message_ack c i j)
  process_slice_message_ack-IsSender c i j m q h k v =
      Returns-map
        (λ d.
          ((IsChannel now d × IsAcknowledged i j c d) × Holds queued d)
          × (d.channel_id ≡ c.channel_id))
        (IsSender queued now id) (process_slice_message_ack c i j)
        (After-and (λ e. ⊥) (λ d. (IsChannel now d × IsAcknowledged i j c d) × Holds queued d)
          (λ d. d.channel_id ≡ c.channel_id) (process_slice_message_ack c i j)
          (After-and (λ e. ⊥) (λ d. IsChannel now d × IsAcknowledged i j c d) (Holds queued)
            (process_slice_message_ack c i j)
            (process_slice_message_ack-IsChannel now c i j
              (λ u e. long-HasSlice queued now id c i j m u v q h k e) v.in_order)
            (process_slice_message_ack_kept queued c i j v.history))
          (process_slice_message_ack-channel_id c i j))
        (λ d w. record { identity = w.1 ∙ v.identity; in_order = w.0.0.0; history = w.0.1 })

  ack_messages-IsSender :
      (c : SendChannelReliable) (is : List ℕ)
      → AreSmall queued is
      → IsSender queued now id c
      → Returns (IsSender queued now id) (ack_messages c is)
  unfolding ack_messages
  ack_messages-IsSender c [] a v = v
  ack_messages-IsSender c (i ∷ is) a v =
      Returns-bind (IsSender queued now id) (IsSender queued now id) (process_message_ack c i)
        (λ d. ack_messages d is) (process_message_ack-IsSender c i a.0.0 a.0.1 a.0.2 v)
        (λ d w. ack_messages-IsSender d is a.1 w)

acked_packet-Returns :
    (s : Stats.ConnectionStats) (sent_at now : ℕ)
    → sent_at ≤ now
    → Returns (λ x. Unit {0}) (Stats.acked_packet s sent_at now)
unfolding Stats.acked_packet
acked_packet-Returns s sent_at now h = ground arith

-- Sequences that rise from `lo` on, each of a packet that was sent.
abbrev pub Listed : ℕ → List (ℕ × PacketSent) → List ℕ → Type 0
Listed lo m [] = Unit {0}
Listed lo m (i ∷ is) = (lo ≤ i) × (lookup i m ≢ none) × Listed (suc i) m is

Listed-weaken :
    (lo lo' : ℕ) (m : List (ℕ × PacketSent)) (is : List ℕ)
    → lo' ≤ lo
    → Listed lo m is
    → Listed lo' m is
Listed-weaken lo lo' m [] h l = tt
Listed-weaken lo lo' m (i ∷ is) h l = (omega (arith, l.0), l.1, l.2)

Listed-cons :
    (lo k : ℕ) (p : PacketSent) (m : List (ℕ × PacketSent)) (is : List ℕ)
    → k < lo
    → Listed lo m is
    → Listed lo ((k, p) ∷ m) is
unfolding lookup
Listed-cons lo k p m [] h l = tt
Listed-cons lo k p m (i ∷ is) h l =
    (l.0, λ q. l.1 (ground arith), Listed-cons (suc i) k p m is (omega (arith, l.0)) l.2)

Listed-remove :
    (lo k : ℕ) (m : List (ℕ × PacketSent)) (is : List ℕ)
    → k < lo
    → Listed lo m is
    → Listed lo (remove k m) is
Listed-remove lo k m [] h l = tt
Listed-remove lo k m (i ∷ is) h l = (
  l.0,
  λ q. l.1 (ground (arith, lookup-remove k i m)),
  Listed-remove (suc i) k m is (omega (arith, l.0)) l.2,
)

-- Every sequence is below `hi`.
abbrev Under : ℕ → List ℕ → Type 0
Under hi [] = Unit {0}
Under hi (i ∷ is) = (i < hi) × Under hi is

Listed-append :
    (lo hi : ℕ) (m : List (ℕ × PacketSent)) (is js : List ℕ)
    → lo ≤ hi
    → Under hi is
    → Listed lo m is
    → Listed hi m js
    → Listed lo m (is ++ js)
Listed-append lo hi m [] js h u l k = Listed-weaken hi lo m js h k
Listed-append lo hi m (i ∷ is) js h u l k =
    (l.0, l.1, Listed-append (suc i) hi m is js (omega (arith, u.0)) u.1 l.2 k)

-- Every sequence is in the range.
abbrev Within : AckRange → List ℕ → Type 0
Within r [] = Unit {0}
Within r (i ∷ is) = (r.start ≤ i) × (i < r.end) × Within r is

Within-Under : (r : AckRange) (is : List ℕ) → Within r is → Under r.end is
Within-Under r [] w = tt
Within-Under r (i ∷ is) w = (w.1, Within-Under r is w.2)

Listed-start :
    (lo : ℕ) (r : AckRange) (m : List (ℕ × PacketSent)) (is : List ℕ)
    → Within r is
    → Listed lo m is
    → Listed r.start m is
Listed-start lo r m [] w l = tt
Listed-start lo r m (i ∷ is) w l = (w.0, l.1, l.2)

sequences_in-Within : (r : AckRange) (m : List (ℕ × PacketSent)) → Within r (sequences_in r m)
unfolding sequences_in
sequences_in-Within r [] = tt
sequences_in-Within r ((s, p) ∷ m) = elim (Bool-cases (leb r.start s && ltb s r.end)) [
  | inl e ↦ rw e (ground arith, ground arith, sequences_in-Within r m)
  | inr e ↦ rw e (sequences_in-Within r m)
]

sequences_in-Listed :
    (r : AckRange) (lo : ℕ) (m : List (ℕ × PacketSent))
    → Ascending lo m
    → Listed lo m (sequences_in r m)
unfolding sequences_in lookup
sequences_in-Listed r lo [] a = tt
sequences_in-Listed r lo ((s, p) ∷ m) a =
    let rest : Listed (suc s) ((s, p) ∷ m) (sequences_in r m) =
      Listed-cons (suc s) s p m (sequences_in r m) (omega arith)
        (sequences_in-Listed r (suc s) m a.1) in
    elim (Bool-cases (leb r.start s && ltb s r.end)) [
      | inl e ↦ rw e (a.0, (λ q. ground arith), rest)
      | inr e ↦
          rw e (Listed-weaken (suc s) lo ((s, p) ∷ m) (sequences_in r m) (omega (arith, a.0)) rest)
    ]

new_acks-Listed :
    (lo : ℕ) (rs : List AckRange) (m : List (ℕ × PacketSent))
    → Separated lo rs
    → Ascending 0 m
    → Returns (Listed lo m) (new_acks rs m)
unfolding new_acks
new_acks-Listed lo [] m s a = tt
new_acks-Listed lo (r ∷ rs) m s a = elim (Bool-cases (ltb r.end r.start)) [
  | inl e ↦ absurd (ground (arith, s.1))
  | inr e ↦ rw e (
      Returns-bind (Listed (r.end + 1) m) (Listed lo m) (new_acks rs m)
        (λ others. ok (sequences_in r m ++ others)) (new_acks-Listed (r.end + 1) rs m s.3 a)
        (λ others l.
          let inside : Within r (sequences_in r m) = sequences_in-Within r m in
          Listed-weaken r.start lo m (sequences_in r m ++ others) s.0 (
            Listed-append r.start r.end m (sequences_in r m) others (omega (arith, s.1))
              (Within-Under r (sequences_in r m) inside)
              (Listed-start 0 r m (sequences_in r m) inside (sequences_in-Listed r 0 m a))
              (Listed-weaken (r.end + 1) r.end m others (omega arith) l))))
]

module _ {F : Type 0} (queued : ℕ → List Bytes) where
  -- The packets that were sent stay noted while a channel takes in what one of them tells.
  abbrev Acked : RenetClient F → RenetClient F → Type 0
  Acked c d = IsClient queued d × (d.sent_packets ≡ c.sent_packets)

  on_sender-Acked :
      (c : RenetClient F) (id : ℕ)
      (call : SendChannelReliable → Result ChannelError SendChannelReliable)
      → IsReliableAt c.send_channels id
      → ((d : SendChannelReliable)
          → IsSender (queued id) c.current_time id d
          → Returns (IsSender (queued id) c.current_time id) (call d))
      → IsClient queued c
      → Returns (Acked c) (on_sender c id call)
  on_sender-Acked c id call (d, e) keeps v =
      rw (e, on_sender)
        (Returns-bind (IsSender (queued id) c.current_time id) (Acked c) (call d)
          (λ x. ok (with_send_channel c id (SendChannel.reliable x))) (keeps d (v.senders id d e))
          (λ x s. (with_sender-IsClient queued c id d x e s v, refl)))

  process_info-Acked :
      (c : RenetClient F) (info : PacketSentInfo)
      → IsInfo queued c.send_channels info
      → IsClient queued c
      → Returns (Acked c) (process_info c info)
  unfolding process_info
  process_info-Acked c (reliable_messages id ids) h v =
      on_sender-Acked c id (λ d. ack_messages d ids) h.0
        (λ d s. ack_messages-IsSender (queued id) c.current_time id d ids h.1 s) v
  process_info-Acked c (reliable_slice_message id i j) h v =
      on_sender-Acked c id (λ d. process_slice_message_ack d i j) h.0
        (λ d s.
          process_slice_message_ack-IsSender (queued id) c.current_time id d i j h.1.0 h.1.1 h.1.2
            h.1.3 s)
        v
  process_info-Acked c (ack_ranges largest) h v = (
    record {
      senders = v.senders;
      orders = v.orders;
      rising = v.rising;
      sent = v.sent;
      timed = v.timed;
    },
    refl,
  )
  process_info-Acked c untracked h v = (v, refl)

  module _ (f : Float F) where
    -- The client after the acknowledgement of a sequence: that packet is no longer noted.
    abbrev Handled : RenetClient F → ℕ → RenetClient F → Type 0
    Handled c sequence d = IsClient queued d × (d.sent_packets ≡ remove sequence c.sent_packets)

    process_new_ack-Handled :
        (c : RenetClient F) (sequence : ℕ)
        → lookup sequence c.sent_packets ≢ none
        → IsClient queued c
        → Returns (Handled c sequence) (process_new_ack f c sequence)
    unfolding process_new_ack
    process_new_ack-Handled c sequence h v = go (lookup sequence c.sent_packets) refl
      where
        go :
            (found : Option PacketSent)
            → lookup sequence c.sent_packets ≡ found
            → Returns (Handled c sequence) (process_new_ack f c sequence)
        go none e = absurd (h e)
        go (some p) e =
            let valid : IsSent queued c.send_channels c.current_time sequence p =
              Every-lookup (IsSent queued c.send_channels c.current_time) sequence p c.sent_packets
                v.sent e in
            rw (e, process_new_ack)
              (Returns-bind (λ s. Unit {0}) (Handled c sequence)
                (Stats.acked_packet c.stats p.sent_at c.current_time) _
                (acked_packet-Returns c.stats p.sent_at c.current_time valid.0)
                (λ stats u.
                  process_info-Acked
                    (record c {
                      sent_packets = remove sequence c.sent_packets;
                      stats = stats;
                      rtt = update_rtt f c.rtt (c.current_time - p.sent_at);
                    })
                    p.info valid.1
                    (record {
                      senders = v.senders;
                      orders = v.orders;
                      rising = remove-Ascending 0 sequence c.sent_packets v.rising;
                      sent =
                          Every-remove (IsSent queued c.send_channels c.current_time) sequence
                            c.sent_packets v.sent;
                      timed = v.timed;
                    })))

    process_new_acks-IsClient :
        (c : RenetClient F) (lo : ℕ) (acks : List ℕ)
        → Listed lo c.sent_packets acks
        → IsClient queued c
        → Returns (IsClient queued) (process_new_acks f c acks)
    unfolding process_new_acks
    process_new_acks-IsClient c lo [] l v = v
    process_new_acks-IsClient c lo (i ∷ is) l v =
        Returns-bind (Handled c i) (IsClient queued) (process_new_ack f c i)
          (λ d. process_new_acks f d is) (process_new_ack-Handled c i l.1 v)
          (λ d k.
            let rest : Listed (suc i) d.sent_packets is =
              rw k.1 (Listed-remove (suc i) i c.sent_packets is (omega arith) l.2) in
            process_new_acks-IsClient d (suc i) is rest k.0)

    -- An acknowledgement with separated ranges is handled with no panic.
    pub process_acks-IsClient :
        (c : RenetClient F) (ranges : List AckRange)
        → Separated 0 ranges
        → IsClient queued c
        → Returns
            (IsClient queued)
            (new_acks ranges c.sent_packets >>= λ acks. process_new_acks f c acks)
    process_acks-IsClient c ranges s v =
        Returns-bind (Listed 0 c.sent_packets) (IsClient queued) (new_acks ranges c.sent_packets)
          (λ acks. process_new_acks f c acks) (new_acks-Listed 0 ranges c.sent_packets s v.rising)
          (λ acks l. process_new_acks-IsClient c 0 acks l v)
