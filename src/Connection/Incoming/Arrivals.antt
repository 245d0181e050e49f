-- ===== src/Connection/Incoming/Arrivals.antt =====
-- Every packet that arrives leaves the client in order, and none but a slice can make it panic.
use renet.Base.{
  ℕ, suc, zero, ◌≡◌, ◌≢◌, refl, Bool, true, false, Bool-cases, inl, inr, List, [], ◌∷◌, Option,
  none, some, length, get_elem?, set, Result, ok, err, panic, ◌>>=◌,
}
use renet.Ack.{add_pending_ack}
use renet.Channel.{Bytes, ChannelError, Returns, Returns-OnReturn, OnReturn}
use renet.Float.{Float}
use renet.Packet.{
  Octets, Packet, SerializationError, small_reliable, small_unreliable, reliable_slice,
  unreliable_slice, ack, from_bytes, sequence_of,
}
use renet.Packet.Decoded.{IsDecoded, OnRead, from_bytes-IsDecoded}
use renet.ReceiveReliable
use renet.ReceiveReliable.{ReceiveChannelReliable}
use renet.ReceiveReliable.Order.{process_message_returns}
use renet.ReceiveUnreliable
use renet.ReceiveUnreliable.{ReceiveChannelUnreliable}
use renet.ReceiveUnreliable.Discard.{IsTimed, process_slice-IsTimed, process_message-IsTimed}
use renet.Stats
use renet.Connection.{
  RenetClient, DisconnectReason, ReceiveChannel, packet_deserialization,
  received_invalid_channel_id, receive_channel_error, is_disconnected, disconnect_with_reason,
  with_receive_channel,
}
use renet.Connection.Invariant.{IsClient, AllTimed}
use renet.Connection.Incoming.{
  process_messages, process_unreliable_messages, with_reliable_result, with_unreliable_result,
  on_reliable, on_unreliable, process_arm, process_read, process_packet, new_acks, process_new_acks,
}
use renet.Connection.Incoming.Acks.{process_acks-IsClient}

pub AllTimed-get :
    (now : ℕ) (cs : List ReceiveChannel) (id : ℕ) (c : ReceiveChannelUnreliable)
    → AllTimed now cs
    → get_elem? cs id ≡ some (ReceiveChannel.unreliable c)
    → IsTimed now c
AllTimed-get now [] id c a e = cc
AllTimed-get now (ReceiveChannel.unreliable d ∷ cs) zero c a e =
    let same : c ≡ d = cc in rw same a.0
AllTimed-get now (ReceiveChannel.reliable d ∷ cs) zero c a e = cc
AllTimed-get now (ReceiveChannel.empty ∷ cs) zero c a e = cc
AllTimed-get now (ReceiveChannel.unreliable d ∷ cs) (suc id) c a e = AllTimed-get now cs id c a.1 e
AllTimed-get now (ReceiveChannel.reliable d ∷ cs) (suc id) c a e = AllTimed-get now cs id c a e
AllTimed-get now (ReceiveChannel.empty ∷ cs) (suc id) c a e = AllTimed-get now cs id c a e

-- A channel that is in order is put in a channel's place.
abbrev pub IsTimedChannel : ℕ → ReceiveChannel → Type 0
IsTimedChannel now (ReceiveChannel.unreliable c) = IsTimed now c
IsTimedChannel now (ReceiveChannel.reliable c) = Unit {0}
IsTimedChannel now ReceiveChannel.empty = Unit {0}

AllTimed-cons :
    (now : ℕ) (c : ReceiveChannel) (cs : List ReceiveChannel)
    → IsTimedChannel now c
    → AllTimed now cs
    → AllTimed now (c ∷ cs)
AllTimed-cons now (ReceiveChannel.unreliable d) cs h a = (h, a)
AllTimed-cons now (ReceiveChannel.reliable d) cs h a = a
AllTimed-cons now ReceiveChannel.empty cs h a = a

AllTimed-tail :
    (now : ℕ) (c : ReceiveChannel) (cs : List ReceiveChannel)
    → AllTimed now (c ∷ cs)
    → IsTimedChannel now c × AllTimed now cs
AllTimed-tail now (ReceiveChannel.unreliable d) cs a = a
AllTimed-tail now (ReceiveChannel.reliable d) cs a = (tt, a)
AllTimed-tail now ReceiveChannel.empty cs a = (tt, a)

pub AllTimed-set :
    (now : ℕ) (cs : List ReceiveChannel) (id : ℕ) (c : ReceiveChannel)
    → IsTimedChannel now c
    → AllTimed now cs
    → AllTimed now (set cs id c)
AllTimed-set now [] id c h a = tt
AllTimed-set now (d ∷ cs) zero c h a = AllTimed-cons now c cs h (AllTimed-tail now d cs a).1
AllTimed-set now (d ∷ cs) (suc id) c h a =
    let parts : IsTimedChannel now d × AllTimed now cs = AllTimed-tail now d cs a in
    AllTimed-cons now d (set cs id c) parts.0 (AllTimed-set now cs id c h parts.1)

process_messages_returns :
    (c : ReceiveChannelReliable) (ms : List (ℕ × Bytes)) → process_messages c ms ≢ panic
unfolding process_messages
process_messages_returns c [] = λ e. cc
process_messages_returns c ((id, m) ∷ ms) =
    go (ReceiveReliable.process_message c m id) refl (λ d. process_messages_returns d ms)
  where
    go :
        (r : Result ChannelError ReceiveChannelReliable)
        → ReceiveReliable.process_message c m id ≡ r
        → ((d : ReceiveChannelReliable) → process_messages d ms ≢ panic)
        → (r >>= λ d. process_messages d ms) ≢ panic
    go (ok d) q h = h d
    go (err x) q h = λ p. cc
    go panic q h = absurd (process_message_returns c m id q)

process_unreliable_messages-IsTimed :
    (now : ℕ) (c : ReceiveChannelUnreliable) (ms : List Bytes)
    → IsTimed now c
    → IsTimed now (process_unreliable_messages c ms)
unfolding process_unreliable_messages
process_unreliable_messages-IsTimed now c [] v = v
process_unreliable_messages-IsTimed now c (m ∷ ms) v =
    process_unreliable_messages-IsTimed now (ReceiveUnreliable.process_message c m) ms
      (process_message-IsTimed now c m v)

Kept-OnReturn :
    (now : ℕ) (r : Result ChannelError ReceiveChannelUnreliable)
    → ((d : ReceiveChannelUnreliable) → r ≡ ok d → IsTimed now d)
    → OnReturn (IsTimed now) r
Kept-OnReturn now (ok d) h = h d refl
Kept-OnReturn now (err e) h = tt
Kept-OnReturn now panic h = tt

module _ {F : Type 0} (queued : ℕ → List Bytes) where
  pub disconnect_with_reason-IsClient :
      (c : RenetClient F) (reason : DisconnectReason)
      → IsClient queued c
      → IsClient queued (disconnect_with_reason c reason)
  unfolding disconnect_with_reason
  disconnect_with_reason-IsClient c reason v = elim (Bool-cases (is_disconnected c)) [
    | inl e ↦ rw e v
    | inr e ↦ rw e (record {
      senders = v.senders;
      orders = v.orders;
      rising = v.rising;
      sent = v.sent;
      timed = v.timed;
    })
  ]

  pub with_receive_channel-IsClient :
      (c : RenetClient F) (id : ℕ) (d : ReceiveChannel)
      → IsTimedChannel c.current_time d
      → IsClient queued c
      → IsClient queued (with_receive_channel c id d)
  with_receive_channel-IsClient c id d h v = record {
    senders = v.senders;
    orders = v.orders;
    rising = v.rising;
    sent = v.sent;
    timed = AllTimed-set c.current_time c.receive_channels id d h v.timed;
  }

  on_reliable-IsClient :
      (c : RenetClient F) (id : ℕ)
      (call : ReceiveChannelReliable → Result ChannelError ReceiveChannelReliable)
      → IsClient queued c
      → OnReturn (IsClient queued) (on_reliable c id call)
  on_reliable-IsClient c id call v = go (get_elem? c.receive_channels id) refl
    where
      result :
          (r : Result ChannelError ReceiveChannelReliable)
          → OnReturn (IsClient queued) (with_reliable_result c id r)
      result (ok d) = with_receive_channel-IsClient c id (ReceiveChannel.reliable d) tt v
      result (err e) = disconnect_with_reason-IsClient c (receive_channel_error id e) v
      result panic = tt

      go :
          (found : Option ReceiveChannel)
          → get_elem? c.receive_channels id ≡ found
          → OnReturn (IsClient queued) (on_reliable c id call)
      go none e =
          rw (e, on_reliable) (disconnect_with_reason-IsClient c (received_invalid_channel_id id) v)
      go (some ReceiveChannel.empty) e =
          rw (e, on_reliable) (disconnect_with_reason-IsClient c (received_invalid_channel_id id) v)
      go (some (ReceiveChannel.unreliable d)) e =
          rw (e, on_reliable) (disconnect_with_reason-IsClient c (received_invalid_channel_id id) v)
      go (some (ReceiveChannel.reliable d)) e = rw (e, on_reliable) (result (call d))

  on_unreliable-IsClient :
      (c : RenetClient F) (id : ℕ)
      (call : ReceiveChannelUnreliable → Result ChannelError ReceiveChannelUnreliable)
      → ((d : ReceiveChannelUnreliable)
          → IsTimed c.current_time d
          → OnReturn (IsTimed c.current_time) (call d))
      → IsClient queued c
      → OnReturn (IsClient queued) (on_unreliable c id call)
  on_unreliable-IsClient c id call keeps v = go (get_elem? c.receive_channels id) refl
    where
      result :
          (r : Result ChannelError ReceiveChannelUnreliable)
          → OnReturn (IsTimed c.current_time) r
          → OnReturn (IsClient queued) (with_unreliable_result c id r)
      result (ok d) h = with_receive_channel-IsClient c id (ReceiveChannel.unreliable d) h v
      result (err e) h = disconnect_with_reason-IsClient c (receive_channel_error id e) v
      result panic h = tt

      go :
          (found : Option ReceiveChannel)
          → get_elem? c.receive_channels id ≡ found
          → OnReturn (IsClient queued) (on_unreliable c id call)
      go none e =
          rw (e, on_unreliable)
            (disconnect_with_reason-IsClient c (received_invalid_channel_id id) v)
      go (some ReceiveChannel.empty) e =
          rw (e, on_unreliable)
            (disconnect_with_reason-IsClient c (received_invalid_channel_id id) v)
      go (some (ReceiveChannel.reliable d)) e =
          rw (e, on_unreliable)
            (disconnect_with_reason-IsClient c (received_invalid_channel_id id) v)
      go (some (ReceiveChannel.unreliable d)) e =
          rw (e, on_unreliable)
            (result (call d)
              (keeps d (AllTimed-get c.current_time c.receive_channels id d v.timed e)))

-- Packets that carry a slice.
abbrev pub is_slice : Packet → Bool
is_slice (reliable_slice sequence channel_id slice) = true
is_slice (unreliable_slice sequence channel_id slice) = true
is_slice (small_reliable sequence channel_id messages) = false
is_slice (small_unreliable sequence channel_id messages) = false
is_slice (ack sequence ack_ranges) = false

module _ {F : Type 0} (queued : ℕ → List Bytes) where
  on_reliable-Returns :
      (c : RenetClient F) (id : ℕ)
      (call : ReceiveChannelReliable → Result ChannelError ReceiveChannelReliable)
      → ((d : ReceiveChannelReliable) → call d ≢ panic)
      → IsClient queued c
      → Returns (IsClient queued) (on_reliable c id call)
  on_reliable-Returns c id call h v = go (get_elem? c.receive_channels id) refl
    where
      result :
          (r : Result ChannelError ReceiveChannelReliable)
          → r ≢ panic
          → Returns (IsClient queued) (with_reliable_result c id r)
      result (ok d) q = with_receive_channel-IsClient queued c id (ReceiveChannel.reliable d) tt v
      result (err e) q = disconnect_with_reason-IsClient queued c (receive_channel_error id e) v
      result panic q = absurd (q refl)

      lost : IsClient queued (disconnect_with_reason c (received_invalid_channel_id id))
      lost = disconnect_with_reason-IsClient queued c (received_invalid_channel_id id) v

      go :
          (found : Option ReceiveChannel)
          → get_elem? c.receive_channels id ≡ found
          → Returns (IsClient queued) (on_reliable c id call)
      go none e = rw (e, on_reliable) lost
      go (some ReceiveChannel.empty) e = rw (e, on_reliable) lost
      go (some (ReceiveChannel.unreliable d)) e = rw (e, on_reliable) lost
      go (some (ReceiveChannel.reliable d)) e = rw (e, on_reliable) (result (call d) (h d))

  on_unreliable-Returns :
      (c : RenetClient F) (id : ℕ) (call : ReceiveChannelUnreliable → ReceiveChannelUnreliable)
      → ((d : ReceiveChannelUnreliable)
          → IsTimed c.current_time d
          → IsTimed c.current_time (call d))
      → IsClient queued c
      → Returns (IsClient queued) (on_unreliable c id (λ d. ok (call d)))
  on_unreliable-Returns c id call h v = go (get_elem? c.receive_channels id) refl
    where
      lost : IsClient queued (disconnect_with_reason c (received_invalid_channel_id id))
      lost = disconnect_with_reason-IsClient queued c (received_invalid_channel_id id) v

      go :
          (found : Option ReceiveChannel)
          → get_elem? c.receive_channels id ≡ found
          → Returns (IsClient queued) (on_unreliable c id (λ d. ok (call d)))
      go none e = rw (e, on_unreliable) lost
      go (some ReceiveChannel.empty) e = rw (e, on_unreliable) lost
      go (some (ReceiveChannel.reliable d)) e = rw (e, on_unreliable) lost
      go (some (ReceiveChannel.unreliable d)) e =
          rw (e, on_unreliable)
            (with_receive_channel-IsClient queued c id (ReceiveChannel.unreliable (call d))
              (h d (AllTimed-get c.current_time c.receive_channels id d v.timed e)) v)

  -- The client is in order afterwards; only a slice can make the call panic.
  abbrev pub Survives : Packet → Result ChannelError (RenetClient F) → Type 0
  Survives p r = OnReturn (IsClient queued) r × (is_slice p ≡ false → Returns (IsClient queued) r)

  -- What is read of the bytes, a packet or an error.
  abbrev pub SurvivesRead :
      Result SerializationError (Packet × Bytes) → Result ChannelError (RenetClient F) → Type 0
  SurvivesRead (ok (p, rest)) r = Survives p r
  SurvivesRead (err e) r = Returns (IsClient queued) r
  SurvivesRead panic r = ⊥

  -- By what is read: of a slice, what holds if the call returns; else the call returns.
  abbrev pub AllowedRead :
      Result SerializationError (Packet × Bytes) → Result ChannelError (RenetClient F) → Type 0
  AllowedRead (ok (reliable_slice sequence channel_id slice, rest)) r = OnReturn (IsClient queued) r
  AllowedRead (ok (unreliable_slice sequence channel_id slice, rest)) r =
      OnReturn (IsClient queued) r
  AllowedRead (ok (small_reliable sequence channel_id messages, rest)) r =
      Returns (IsClient queued) r
  AllowedRead (ok (small_unreliable sequence channel_id messages, rest)) r =
      Returns (IsClient queued) r
  AllowedRead (ok (ack sequence ack_ranges, rest)) r = Returns (IsClient queued) r
  AllowedRead (err e) r = Returns (IsClient queued) r
  AllowedRead panic r = ⊥

  SurvivesRead-AllowedRead :
      (read : Result SerializationError (Packet × Bytes)) (r : Result ChannelError (RenetClient F))
      → SurvivesRead read r
      → AllowedRead read r
  SurvivesRead-AllowedRead (ok (reliable_slice sequence channel_id slice, rest)) r h = h.0
  SurvivesRead-AllowedRead (ok (unreliable_slice sequence channel_id slice, rest)) r h = h.0
  SurvivesRead-AllowedRead (ok (small_reliable sequence channel_id messages, rest)) r h = h.1 refl
  SurvivesRead-AllowedRead (ok (small_unreliable sequence channel_id messages, rest)) r h = h.1 refl
  SurvivesRead-AllowedRead (ok (ack sequence ack_ranges, rest)) r h = h.1 refl
  SurvivesRead-AllowedRead (err e) r h = h
  SurvivesRead-AllowedRead panic r h = h

  module _ (f : Float F) where
    process_arm-Survives :
        (c : RenetClient F) (p : Packet)
        → IsDecoded p
        → IsClient queued c
        → Survives p (process_arm f c p)
    unfolding process_arm
    process_arm-Survives c (small_reliable s id ms) h v =
        let all : Returns (IsClient queued) (on_reliable c id (λ d. process_messages d ms)) =
          on_reliable-Returns c id (λ d. process_messages d ms) (λ d. process_messages_returns d ms)
            v in
        (
          Returns-OnReturn (IsClient queued) (on_reliable c id (λ d. process_messages d ms)) all,
          λ e. all,
        )
    process_arm-Survives c (small_unreliable s id ms) h v =
        let all : Returns (IsClient queued)
            (on_unreliable c id (λ d. ok (process_unreliable_messages d ms))) =
          on_unreliable-Returns c id (λ d. process_unreliable_messages d ms)
            (λ d t. process_unreliable_messages-IsTimed c.current_time d ms t) v in
        (
          Returns-OnReturn (IsClient queued)
              (on_unreliable c id (λ d. ok (process_unreliable_messages d ms))) all,
          λ e. all,
        )
    process_arm-Survives c (reliable_slice s id slice) h v =
        (on_reliable-IsClient queued c id (λ d. ReceiveReliable.process_slice d slice) v, λ e. cc)
    process_arm-Survives c (unreliable_slice s id slice) h v = (
      on_unreliable-IsClient queued c id
          (λ d. ReceiveUnreliable.process_slice d slice c.current_time)
          (λ d t.
            Kept-OnReturn c.current_time (ReceiveUnreliable.process_slice d slice c.current_time)
              (process_slice-IsTimed c.current_time d slice t))
          v,
      λ e. cc,
    )
    process_arm-Survives c (ack s ranges) h v =
        let all : Returns (IsClient queued)
            (new_acks ranges c.sent_packets >>= λ acks. process_new_acks f c acks) =
          process_acks-IsClient queued f c ranges h v in
        (
          Returns-OnReturn (IsClient queued)
              (new_acks ranges c.sent_packets >>= λ acks. process_new_acks f c acks) all,
          λ e. all,
        )

    process_read-Survives :
        (c : RenetClient F) (read : Result SerializationError (Packet × Bytes))
        → OnRead (λ r. IsDecoded r.0) read
        → IsClient queued c
        → SurvivesRead read (process_read f c read)
    unfolding process_read
    process_read-Survives c (ok (p, rest)) h v =
        process_arm-Survives
          (record c { pending_acks = add_pending_ack (sequence_of p) c.pending_acks }) p h
          (record {
            senders = v.senders;
            orders = v.orders;
            rising = v.rising;
            sent = v.sent;
            timed = v.timed;
          })
    process_read-Survives c (err e) h v =
        disconnect_with_reason-IsClient queued c (packet_deserialization e) v
    process_read-Survives c panic h v = h

    pub process_packet-SurvivesRead :
        (o : Octets) (c : RenetClient F) (packet : Bytes)
        → IsClient queued c
        → SurvivesRead (from_bytes o packet) (process_packet f o c packet)
    unfolding process_packet
    process_packet-SurvivesRead o c packet v = elim (Bool-cases (is_disconnected c)) [
      | inl e ↦ rw e (unchanged (from_bytes o packet) (from_bytes-IsDecoded o packet))
      | inr e ↦ rw e (
          process_read-Survives (record c { stats = Stats.received_packet c.stats (length packet) })
            (from_bytes o packet) (from_bytes-IsDecoded o packet)
            (record {
              senders = v.senders;
              orders = v.orders;
              rising = v.rising;
              sent = v.sent;
              timed = v.timed;
            }))
    ]
      where
        unchanged :
            (read : Result SerializationError (Packet × Bytes))
            → OnRead (λ r. IsDecoded r.0) read
            → SurvivesRead read (ok c)
        unchanged (ok (p, rest)) h = (v, λ q. v)
        unchanged (err e) h = v
        unchanged panic h = h

    -- Whatever bytes arrive, a client in order takes them and is in order afterwards. It does not
    -- panic, unless the bytes are a slice: not on bytes that are no packet, and not on an
    -- acknowledgement, whatever its ranges.
    pub process_packet_survives :
        (o : Octets) (c : RenetClient F) (packet : Bytes)
        → IsClient queued c
        → AllowedRead (from_bytes o packet) (process_packet f o c packet)
    process_packet_survives o c packet v =
        SurvivesRead-AllowedRead (from_bytes o packet) (process_packet f o c packet)
          (process_packet-SurvivesRead o c packet v)
