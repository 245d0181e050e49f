-- ===== src/Connection/Invariant.antt =====
-- What holds of a client between two calls, given what was queued on each of its channels.
use renet.Base.{
  ℕ, ◌<◌, ◌≤◌, ◌≡◌, sym, ap, ◌∙◌, ◌==◌, Bool-cases, inl, inr, List, [], ◌∷◌, some, length,
  get_elem?, set, get_elem?-set_self, get_elem?-set_ne, arith,
}
use renet.Channel.{Bytes, slice_size}
use renet.Map.{Ascending, Every}
use renet.Slice.{count_slices}
use renet.Slice.Received.{get_elem?-below}
use renet.SendReliable.{SendChannelReliable}
use renet.SendReliable.Memory.{IsChannel}
use renet.SendReliable.History.{Queued, Holds}
use renet.Unreliable.{SendChannelUnreliable}
use renet.ReceiveUnreliable.Discard.{IsTimed}
use renet.Connection.{
  RenetClient, SendChannel, ReceiveChannel, ChannelOrder, reliable_channel, unreliable_channel,
  PacketSent, PacketSentInfo, untracked, reliable_messages, reliable_slice_message, ack_ranges,
  with_send_channel,
}

-- Which kind of channel stands at an id.
abbrev pub IsReliableAt : List SendChannel → ℕ → Type 0
IsReliableAt channels id =
    (c : SendChannelReliable) × (get_elem? channels id ≡ some (SendChannel.reliable c))

abbrev pub IsUnreliableAt : List SendChannel → ℕ → Type 0
IsUnreliableAt channels id =
    (c : SendChannelUnreliable) × (get_elem? channels id ≡ some (SendChannel.unreliable c))

-- A later list of channels has the same kinds.
pub record SameKinds (before after : List SendChannel) : Type 0 where
  pub reliable_kept : (id : ℕ) → IsReliableAt before id → IsReliableAt after id
  pub unreliable_kept : (id : ℕ) → IsUnreliableAt before id → IsUnreliableAt after id

pub SameKinds-refl : (cs : List SendChannel) → SameKinds cs cs
SameKinds-refl cs = record { reliable_kept = λ id r. r; unreliable_kept = λ id r. r }

pub SameKinds-trans : (a b c : List SendChannel) → SameKinds a b → SameKinds b c → SameKinds a c
SameKinds-trans a b c h k = record {
  reliable_kept = λ id r. k.reliable_kept id (h.reliable_kept id r);
  unreliable_kept = λ id r. k.unreliable_kept id (h.unreliable_kept id r);
}

pub set_reliable-SameKinds :
    (cs : List SendChannel) (id : ℕ) (c d : SendChannelReliable)
    → get_elem? cs id ≡ some (SendChannel.reliable c)
    → SameKinds cs (set cs id (SendChannel.reliable d))
set_reliable-SameKinds cs id c d e = record {
  reliable_kept = λ j r. elim (Bool-cases (id == j)) [
    | inl q ↦
        let same : j ≡ id = ground arith in
        (
          d,
          rw same (
              get_elem?-set_self cs id (SendChannel.reliable d)
                (get_elem?-below cs id (SendChannel.reliable c) e)),
        )
    | inr q ↦
        (r.0, get_elem?-set_ne cs {i = id} {j = j} (SendChannel.reliable d) (ground arith) ∙ r.1)
  ];
  unreliable_kept = λ j r. elim (Bool-cases (id == j)) [
    | inl q ↦ let same : j ≡ id = ground arith in absurd (cc (rw same at r.1, e))
    | inr q ↦
        (r.0, get_elem?-set_ne cs {i = id} {j = j} (SendChannel.reliable d) (ground arith) ∙ r.1)
  ];
}

pub set_unreliable-SameKinds :
    (cs : List SendChannel) (id : ℕ) (c d : SendChannelUnreliable)
    → get_elem? cs id ≡ some (SendChannel.unreliable c)
    → SameKinds cs (set cs id (SendChannel.unreliable d))
set_unreliable-SameKinds cs id c d e = record {
  unreliable_kept = λ j r. elim (Bool-cases (id == j)) [
    | inl q ↦
        let same : j ≡ id = ground arith in
        (
          d,
          rw same (
              get_elem?-set_self cs id (SendChannel.unreliable d)
                (get_elem?-below cs id (SendChannel.unreliable c) e)),
        )
    | inr q ↦
        (r.0, get_elem?-set_ne cs {i = id} {j = j} (SendChannel.unreliable d) (ground arith) ∙ r.1)
  ];
  reliable_kept = λ j r. elim (Bool-cases (id == j)) [
    | inl q ↦ let same : j ≡ id = ground arith in absurd (cc (rw same at r.1, e))
    | inr q ↦
        (r.0, get_elem?-set_ne cs {i = id} {j = j} (SendChannel.unreliable d) (ground arith) ∙ r.1)
  ];
}

-- A reliable channel is in order, and holds what was queued on it.
pub record IsSender (queued : List Bytes) (now id : ℕ) (c : SendChannelReliable) : Type 0 where
  pub identity : c.channel_id ≡ id
  pub in_order : IsChannel now c
  pub history : Holds queued c

abbrev pub IsOrder : List SendChannel → ChannelOrder → Type 0
IsOrder channels (reliable_channel id) = IsReliableAt channels id
IsOrder channels (unreliable_channel id) = IsUnreliableAt channels id

abbrev pub AreOrders : List SendChannel → List ChannelOrder → Type 0
AreOrders channels [] = Unit {0}
AreOrders channels (o ∷ rest) = IsOrder channels o × AreOrders channels rest

-- The ids are those of small messages that were queued.
abbrev pub AreSmall : List Bytes → List ℕ → Type 0
AreSmall queued [] = Unit {0}
AreSmall queued (i ∷ is) =
    ((m : Bytes) × Queued queued i m × (length m ≤ slice_size)) × AreSmall queued is

-- What is noted of a packet that was sent fits a reliable channel and what was queued on it.
abbrev pub IsInfo : (ℕ → List Bytes) → List SendChannel → PacketSentInfo → Type 0
IsInfo queued channels (reliable_messages id ids) =
    IsReliableAt channels id × AreSmall (queued id) ids
IsInfo queued channels (reliable_slice_message id message_id slice_index) =
    IsReliableAt channels id
    × ((m : Bytes) × Queued (queued id) message_id m
        × (slice_size < length m)
        × (slice_index < count_slices m))
IsInfo queued channels (ack_ranges largest) = Unit {0}
IsInfo queued channels untracked = Unit {0}

abbrev pub IsSent : (ℕ → List Bytes) → List SendChannel → ℕ → ℕ → PacketSent → Type 0
IsSent queued channels now sequence sent = (sent.sent_at ≤ now) × IsInfo queued channels sent.info

abbrev pub AllTimed : ℕ → List ReceiveChannel → Type 0
AllTimed now [] = Unit {0}
AllTimed now (ReceiveChannel.unreliable c ∷ rest) = IsTimed now c × AllTimed now rest
AllTimed now (ReceiveChannel.reliable c ∷ rest) = AllTimed now rest
AllTimed now (ReceiveChannel.empty ∷ rest) = AllTimed now rest

module _ {F : Type 0} (queued : ℕ → List Bytes) where
  pub record IsClient (c : RenetClient F) : Type 0 where
    pub senders :
        (id : ℕ) (d : SendChannelReliable)
        → get_elem? c.send_channels id ≡ some (SendChannel.reliable d)
        → IsSender (queued id) c.current_time id d
    pub orders : AreOrders c.send_channels c.channel_send_order
    pub rising : Ascending 0 c.sent_packets
    pub sent : Every (IsSent queued c.send_channels c.current_time) c.sent_packets
    pub timed : AllTimed c.current_time c.receive_channels

pub IsInfo-SameKinds :
    (queued : ℕ → List Bytes) (before after : List SendChannel) (i : PacketSentInfo)
    → SameKinds before after
    → IsInfo queued before i
    → IsInfo queued after i
IsInfo-SameKinds queued before after (reliable_messages id ids) k (r, s) = (k.reliable_kept id r, s)
IsInfo-SameKinds queued before after (reliable_slice_message id message_id slice_index) k (r, s) =
    (k.reliable_kept id r, s)
IsInfo-SameKinds queued before after (ack_ranges largest) k h = tt
IsInfo-SameKinds queued before after untracked k h = tt

pub IsSent-SameKinds :
    (queued : ℕ → List Bytes) (before after : List SendChannel) (now : ℕ)
    (m : List (ℕ × PacketSent))
    → SameKinds before after
    → Every (IsSent queued before now) m
    → Every (IsSent queued after now) m
IsSent-SameKinds queued before after now [] k e = tt
IsSent-SameKinds queued before after now ((s, p) ∷ m) k e = (
  (e.0.0, IsInfo-SameKinds queued before after p.info k e.0.1),
  IsSent-SameKinds queued before after now m k e.1,
)

pub AreOrders-SameKinds :
    (before after : List SendChannel) (os : List ChannelOrder)
    → SameKinds before after
    → AreOrders before os
    → AreOrders after os
AreOrders-SameKinds before after [] k a = tt
AreOrders-SameKinds before after (reliable_channel id ∷ os) k a =
    (k.reliable_kept id a.0, AreOrders-SameKinds before after os k a.1)
AreOrders-SameKinds before after (unreliable_channel id ∷ os) k a =
    (k.unreliable_kept id a.0, AreOrders-SameKinds before after os k a.1)

-- A reliable channel is replaced by one that is in order.
pub with_sender-IsClient :
    {F : Type 0} (queued : ℕ → List Bytes) (c : RenetClient F) (id : ℕ) (d e : SendChannelReliable)
    → get_elem? c.send_channels id ≡ some (SendChannel.reliable d)
    → IsSender (queued id) c.current_time id e
    → IsClient queued c
    → IsClient queued (with_send_channel c id (SendChannel.reliable e))
with_sender-IsClient queued c id d e q s v = record {
  senders = λ j x p. elim (Bool-cases (id == j)) [
    | inl h ↦
        let same : j ≡ id = ground arith in
        let found : some (SendChannel.reliable e) ≡ some (SendChannel.reliable x) =
          sym (
            get_elem?-set_self c.send_channels id (SendChannel.reliable e)
              (get_elem?-below c.send_channels id (SendChannel.reliable d) q))
          ∙ (ap (get_elem? (set c.send_channels id (SendChannel.reliable e))) (sym same) ∙ p) in
        let value : x ≡ e = cc in rw (same, value) s
    | inr h ↦ v.senders j x (
        sym (
          get_elem?-set_ne c.send_channels {i = id} {j = j} (SendChannel.reliable e) (ground arith))
        ∙ p)
  ];
  orders =
      AreOrders-SameKinds c.send_channels _ c.channel_send_order
        (set_reliable-SameKinds c.send_channels id d e q) v.orders;
  rising = v.rising;
  sent =
      IsSent-SameKinds queued c.send_channels _ c.current_time c.sent_packets
        (set_reliable-SameKinds c.send_channels id d e q) v.sent;
  timed = v.timed;
}
