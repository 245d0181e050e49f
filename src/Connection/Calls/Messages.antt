-- ===== src/Connection/Calls/Messages.antt =====
-- `send_message` and `receive_message` leave a client in order.
use renet.Base.{
  ℕ, ◌+◌, ◌<◌, ◌≤◌, ◌^◌, ◌≡◌, ◌≢◌, ◌⊎◌, refl, sym, ap, ◌∙◌, List, [], ◌∷◌, ◌++◌, false, Bool-cases,
  inl, inr, ◌==◌, if◌then◌else◌, some, Result, ok, err, panic, length, get_elem?, set,
  get_elem?-set_self, get_elem?-set_ne, get_elem?-append_left, arith,
}
use renet.Channel.{
  Bytes, ChannelError, Ensures, Returns, After-and, After-both, OnReturn,
  reliable_channel_max_memory_reached,
}
use renet.Map.{Every}
use renet.ReceiveReliable
use renet.ReceiveUnreliable
use renet.ReceiveUnreliable.{ReceiveChannelUnreliable}
use renet.ReceiveUnreliable.Discard.{IsTimed}
use renet.SendReliable
use renet.SendReliable.{SendChannelReliable}
use renet.SendReliable.History.{Queued, Holds, send_message-Holds}
use renet.SendReliable.Identity.{send_message-channel_id}
use renet.SendReliable.Memory.{IsChannel, send_message-IsChannel}
use renet.Slice.{count_slices}
use renet.Slice.Received.{get_elem?-below}
use renet.Unreliable
use renet.Unreliable.{SendChannelUnreliable}
use renet.Connection.{
  RenetClient, SendChannel, ReceiveChannel, PacketSent, PacketSentInfo, untracked,
  reliable_messages, reliable_slice_message, ack_ranges, is_disconnected, send_channel_error,
  with_send_channel,
}
use renet.Connection.Calls.{send_message, receive_message, with_queued}
use renet.Connection.Incoming.Arrivals.{
  disconnect_with_reason-IsClient, with_receive_channel-IsClient, AllTimed-get,
}
use renet.Connection.Invariant.{
  IsClient, IsSender, IsReliableAt, IsUnreliableAt, AreSmall, IsInfo, IsSent,
  set_reliable-SameKinds, set_unreliable-SameKinds, IsSent-SameKinds, AreOrders-SameKinds,
}

-- What was queued, with one more message on the channel `id`.
abbrev pub pushed : (ℕ → List Bytes) → ℕ → Bytes → ℕ → List Bytes
pushed queued id m j = if id == j then queued j ++ m ∷ [] else queued j

Queued-pushed :
    (queued : ℕ → List Bytes) (id : ℕ) (m : Bytes) (j i : ℕ) (x : Bytes)
    → Queued (queued j) i x
    → Queued (pushed queued id m j) i x
Queued-pushed queued id m j i x q = elim (Bool-cases (id == j)) [
  | inl e ↦
      rw e (get_elem?-append_left (queued j) (m ∷ []) i (get_elem?-below (queued j) i x q) ∙ q)
  | inr e ↦ rw e q
]

AreSmall-pushed :
    (queued : ℕ → List Bytes) (id : ℕ) (m : Bytes) (j : ℕ) (is : List ℕ)
    → AreSmall (queued j) is
    → AreSmall (pushed queued id m j) is
AreSmall-pushed queued id m j [] a = tt
AreSmall-pushed queued id m j (i ∷ is) ((x, q, h), a) =
    ((x, Queued-pushed queued id m j i x q, h), AreSmall-pushed queued id m j is a)

IsInfo-pushed :
    (queued : ℕ → List Bytes) (id : ℕ) (m : Bytes) (channels : List SendChannel)
    (i : PacketSentInfo)
    → IsInfo queued channels i
    → IsInfo (pushed queued id m) channels i
IsInfo-pushed queued id m channels (reliable_messages j ids) (r, a) =
    (r, AreSmall-pushed queued id m j ids a)
IsInfo-pushed queued id m channels (reliable_slice_message j i k) (r, (x, q, h, k_below)) =
    (r, (x, Queued-pushed queued id m j i x q, h, k_below))
IsInfo-pushed queued id m channels (ack_ranges largest) h = tt
IsInfo-pushed queued id m channels untracked h = tt

IsSent-pushed :
    (queued : ℕ → List Bytes) (id : ℕ) (m : Bytes) (channels : List SendChannel) (now : ℕ)
    (sent : List (ℕ × PacketSent))
    → Every (IsSent queued channels now) sent
    → Every (IsSent (pushed queued id m) channels now) sent
IsSent-pushed queued id m channels now [] e = tt
IsSent-pushed queued id m channels now ((s, p) ∷ rest) e = (
  (e.0.0, IsInfo-pushed queued id m channels p.info e.0.1),
  IsSent-pushed queued id m channels now rest e.1,
)

-- A message that is not above 1.2 GB has at most 1,000,000 slices.
few : (m : Bytes) → length m ≤ 1_200_000_000 → count_slices m ≤ 1_000_000
unfolding count_slices
few m h = omega arith

receive_message-IsTimed :
    (now : ℕ) (c : ReceiveChannelUnreliable)
    → IsTimed now c
    → IsTimed now (ReceiveUnreliable.receive_message c).0
unfolding ReceiveUnreliable.receive_message
receive_message-IsTimed now c v = go c.messages refl
  where
    go : (ms : List Bytes) → c.messages ≡ ms → IsTimed now (ReceiveUnreliable.receive_message c).0
    go [] e = rw e (record { rising = v.rising; past = v.past; present = v.present })
    go (m ∷ ms) e = rw e (record { rising = v.rising; past = v.past; present = v.present })

On_id :
    {id old : ℕ} (r : Result ChannelError SendChannelReliable)
    → OnReturn (λ d. d.channel_id ≡ old) r
    → old ≡ id
    → OnReturn (λ d. d.channel_id ≡ id) r
On_id (ok d) h e = h ∙ e
On_id (err x) h e = tt
On_id panic h e = tt

module _ {F : Type 0} (queued : ℕ → List Bytes) where
  -- The channel takes the message.
  pushed-IsClient :
      (c : RenetClient F) (id : ℕ) (m : Bytes) (d e : SendChannelReliable)
      → get_elem? c.send_channels id ≡ some (SendChannel.reliable d)
      → IsSender (queued id ++ m ∷ []) c.current_time id e
      → IsClient queued c
      → IsClient (pushed queued id m) (with_send_channel c id (SendChannel.reliable e))
  pushed-IsClient c id m d e q s v = record {
    senders = λ j x p. elim (Bool-cases (id == j)) [
      | inl h ↦
          let same : j ≡ id = ground arith in
          let found : some (SendChannel.reliable e) ≡ some (SendChannel.reliable x) =
            sym (
              get_elem?-set_self c.send_channels id (SendChannel.reliable e)
                (get_elem?-below c.send_channels id (SendChannel.reliable d) q))
            ∙ (ap (get_elem? (set c.send_channels id (SendChannel.reliable e))) (sym same) ∙ p) in
          let value : x ≡ e = cc in rw (h, value) (rw same s)
      | inr h ↦ rw h (
          v.senders j x (
            sym (
              get_elem?-set_ne c.send_channels {i = id} {j = j} (SendChannel.reliable e)
                (ground arith))
            ∙ p))
    ];
    orders =
        AreOrders-SameKinds c.send_channels _ c.channel_send_order
          (set_reliable-SameKinds c.send_channels id d e q) v.orders;
    rising = v.rising;
    sent = IsSent-pushed queued id m _ c.current_time c.sent_packets (
        IsSent-SameKinds queued c.send_channels _ c.current_time c.sent_packets
          (set_reliable-SameKinds c.send_channels id d e q) v.sent);
    timed = v.timed;
  }

  pub with_unreliable-IsClient :
      (c : RenetClient F) (id : ℕ) (d e : SendChannelUnreliable)
      → get_elem? c.send_channels id ≡ some (SendChannel.unreliable d)
      → IsClient queued c
      → IsClient queued (with_send_channel c id (SendChannel.unreliable e))
  with_unreliable-IsClient c id d e q v = record {
    senders = λ j x p. elim (Bool-cases (id == j)) [
      | inl h ↦
          let same : j ≡ id = ground arith in
          let found : some (SendChannel.unreliable e) ≡ some (SendChannel.reliable x) =
            sym (
              get_elem?-set_self c.send_channels id (SendChannel.unreliable e)
                (get_elem?-below c.send_channels id (SendChannel.unreliable d) q))
            ∙ (ap (get_elem? (set c.send_channels id (SendChannel.unreliable e))) (sym same) ∙ p) in
          cc
      | inr h ↦ v.senders j x (
          sym (
            get_elem?-set_ne c.send_channels {i = id} {j = j} (SendChannel.unreliable e)
              (ground arith))
          ∙ p)
    ];
    orders =
        AreOrders-SameKinds c.send_channels _ c.channel_send_order
          (set_unreliable-SameKinds c.send_channels id d e q) v.orders;
    rising = v.rising;
    sent =
        IsSent-SameKinds queued c.send_channels _ c.current_time c.sent_packets
          (set_unreliable-SameKinds c.send_channels id d e q) v.sent;
    timed = v.timed;
  }

  -- The client is in order, and the message is queued or not.
  abbrev pub Took : ℕ → Bytes → RenetClient F → Type 0
  Took id m d = IsClient queued d ⊎ IsClient (pushed queued id m) d

  Took-queued :
      (c : RenetClient F) (id : ℕ) (m : Bytes) (d : SendChannelReliable)
      (r : Result ChannelError SendChannelReliable)
      → get_elem? c.send_channels id ≡ some (SendChannel.reliable d)
      → IsClient queued c
      → Ensures
          (λ e. (IsChannel c.current_time e × Holds (queued id ++ m ∷ []) e) × (e.channel_id ≡ id))
          r
      → Returns (Took id m) (with_queued c id r)
  Took-queued c id m d (ok e) q v h = inr (
      pushed-IsClient c id m d e q (record { identity = h.1; in_order = h.0.0; history = h.0.1 }) v)
  Took-queued c id m d (err x) q v h =
      inl (disconnect_with_reason-IsClient queued c (send_channel_error id x) v)
  Took-queued c id m d panic q v h = absurd h

  -- A message of at most 1.2 GB that is sent on a channel that there is: the client stays in order.
  pub send_message-Took :
      (c : RenetClient F) (id : ℕ) (m : Bytes)
      → (IsReliableAt c.send_channels id × (length (queued id) + 1 < 2 ^ 64))
        ⊎ IsUnreliableAt c.send_channels id
      → length m ≤ 1_200_000_000
      → IsClient queued c
      → Returns (Took id m) (send_message c id m)
  unfolding send_message
  send_message-Took c id m at h v = elim (Bool-cases (is_disconnected c)) [
    | inl e ↦ rw e (inl v)
    | inr e ↦ rw e (elim at [
      | inr (d, q) ↦ rw q (inl (with_unreliable-IsClient c id d (Unreliable.send_message d m) q v))
      | inl ((d, q), k) ↦ rw q (
          let s : IsSender (queued id) c.current_time id d = v.senders id d q in
          let slices : count_slices m ≤ 1_000_000 = few m h in
          Took-queued c id m d (SendReliable.send_message d m) q v (
            After-and (λ e. e ≡ reliable_channel_max_memory_reached) _ (λ e. e.channel_id ≡ id)
              (SendReliable.send_message d m)
              (After-both (λ e. e ≡ reliable_channel_max_memory_reached) (IsChannel c.current_time)
                (Holds (queued id ++ m ∷ [])) (SendReliable.send_message d m)
                (send_message-IsChannel c.current_time d m
                  (omega (arith, s.in_order.limited, s.history.room))
                  (omega (arith, s.history.number)) slices s.in_order)
                (send_message-Holds (queued id) d m (omega (arith, s.history.number)) s.history))
              (On_id (SendReliable.send_message d m) (send_message-channel_id d m) s.identity)))
    ])
  ]

  -- A message is taken off a channel that there is: the client stays in order.
  pub receive_message-IsClient :
      (c : RenetClient F) (id : ℕ) (channel : ReceiveChannel)
      → get_elem? c.receive_channels id ≡ some channel
      → channel ≢ ReceiveChannel.empty
      → IsClient queued c
      → Returns (λ r. IsClient queued r.0) (receive_message c id)
  unfolding receive_message
  receive_message-IsClient c id channel q n v = elim (Bool-cases (is_disconnected c)) [
    | inl e ↦ rw e v
    | inr e ↦ go channel q n e
  ]
    where
      go :
          (channel : ReceiveChannel)
          → get_elem? c.receive_channels id ≡ some channel
          → channel ≢ ReceiveChannel.empty
          → is_disconnected c ≡ false
          → Returns (λ r. IsClient queued r.0) (receive_message c id)
      go ReceiveChannel.empty q n e = absurd (n refl)
      go (ReceiveChannel.reliable d) q n e =
          rw (e, q)
            (with_receive_channel-IsClient queued c id
              (ReceiveChannel.reliable (ReceiveReliable.receive_message d).0) tt v)
      go (ReceiveChannel.unreliable d) q n e =
          rw (e, q)
            (with_receive_channel-IsClient queued c id
              (ReceiveChannel.unreliable (ReceiveUnreliable.receive_message d).0)
              (receive_message-IsTimed c.current_time d
                (AllTimed-get c.current_time c.receive_channels id d v.timed q))
              v)
