-- ===== src/Connection/Session/Reachable.antt =====
-- The states that a client can be in, from its configuration on.
use renet.Base.{
  ℕ, ◌+◌, ◌<◌, ◌≤◌, ◌^◌, ◌≡◌, ◌≢◌, ◌⊎◌, refl, sym, ap, ◌∙◌, List, [], Bool, false, Bool-cases, inl,
  inr, some, Result, ok, err, panic, ◌>>=◌, length, get_elem?, arith,
}
use renet.Channel.{
  Bytes, ChannelError, Returns, Returns-map, Returns-bind, OnReturn, Returns-OnReturn,
}
use renet.Float.{Float}
use renet.Packet.{Octets, Packet, SerializationError, from_bytes}
use renet.SendReliable.{SendChannelReliable}
use renet.Connection
use renet.Connection.{
  RenetClient, DisconnectReason, SendChannel, ReceiveChannel, is_disconnected, set_connected,
  set_connecting, disconnect, disconnect_due_to_transport, disconnected_by_client, transport,
}
use renet.Connection.Calls
use renet.Connection.Calls.Clock.{Elapsed, update-IsClient}
use renet.Connection.Calls.Messages.{send_message-Took, receive_message-IsClient, pushed, Took}
use renet.Connection.Config.{ConnectionConfig, new, new_from_server}
use renet.Connection.Config.Fresh.{IsConfig, new-IsClient, no_messages}
use renet.Connection.Incoming
use renet.Connection.Incoming.Arrivals.{
  is_slice, SurvivesRead, process_packet-SurvivesRead, disconnect_with_reason-IsClient,
}
use renet.Connection.Invariant.{IsClient, IsUnreliableAt}
use renet.Connection.Outgoing
use renet.Connection.Outgoing.Kept.{get_packets_to_send-IsClient}
use renet.Connection.Session.{Call, call, given}

module _ {F : Type 0} where
  -- What the caller has to see to: a message is sent on a channel that there is, of at most 1.2 GB,
  -- on one with less than 2 ^ 64 - 1 messages before it; received on one that there is; and the
  -- clock does not go beyond `Duration::MAX`.
  abbrev pub Permitted : RenetClient F → Call → Type 0
  Permitted c (Call.send_message id message) =
      (((d : SendChannelReliable) × (get_elem? c.send_channels id ≡ some (SendChannel.reliable d))
          × (d.next_reliable_message_id + 1 < 2 ^ 64))
        ⊎ IsUnreliableAt c.send_channels id)
      × (length message ≤ 1_200_000_000)
  Permitted c (Call.receive_message id) =
      (channel : ReceiveChannel) × (get_elem? c.receive_channels id ≡ some channel)
      × (channel ≢ ReceiveChannel.empty)
  Permitted c Call.set_connected = Unit {0}
  Permitted c Call.set_connecting = Unit {0}
  Permitted c Call.disconnect = Unit {0}
  Permitted c Call.disconnect_due_to_transport = Unit {0}
  Permitted c Call.get_packets_to_send = Unit {0}
  Permitted c (Call.disconnect_with_reason reason) = Unit {0}
  Permitted c (Call.update duration) = c.current_time + duration ≤ Calls.max_duration
  Permitted c (Call.process_packet packet) = Unit {0}

  -- The client is in order, for some messages queued.
  abbrev pub InOrder : RenetClient F → Type 0
  InOrder c = (queued : ℕ → List Bytes) × IsClient queued c

module _ (o : Octets) where
  -- The bytes are read as a slice.
  abbrev pub is_slice_read : Result SerializationError (Packet × Bytes) → Bool
  is_slice_read (ok (packet, rest)) = is_slice packet
  is_slice_read (err error) = false
  is_slice_read panic = false

  abbrev pub carries_slice : Call → Bool
  carries_slice (Call.process_packet packet) = is_slice_read (from_bytes o packet)
  carries_slice Call.set_connected = false
  carries_slice Call.set_connecting = false
  carries_slice Call.disconnect = false
  carries_slice Call.disconnect_due_to_transport = false
  carries_slice Call.get_packets_to_send = false
  carries_slice (Call.disconnect_with_reason reason) = false
  carries_slice (Call.send_message id message) = false
  carries_slice (Call.receive_message id) = false
  carries_slice (Call.update duration) = false

module _ {F : Type 0} (c : RenetClient F) where
  Took-Permitted :
      (id : ℕ) (message : Bytes) (q : ℕ → List Bytes)
      → IsClient q c
      → Permitted c (Call.send_message id message)
      → Returns (Took q id message) (Calls.send_message c id message)
  Took-Permitted id message q v (inl (d, e, h), k) =
      send_message-Took q c id message
        (inl ((d, e), omega (arith, h, (v.senders id d e).history.number))) k v
  Took-Permitted id message q v (inr (d, e), k) = send_message-Took q c id message (inr (d, e)) k v

  set_connected-IsClient : (q : ℕ → List Bytes) → IsClient q c → IsClient q (set_connected c)
  unfolding set_connected
  set_connected-IsClient q v = elim (Bool-cases (is_disconnected c)) [
    | inl e ↦ rw e v
    | inr e ↦ rw e (record {
      senders = v.senders;
      orders = v.orders;
      rising = v.rising;
      sent = v.sent;
      timed = v.timed;
    })
  ]

  set_connecting-IsClient : (q : ℕ → List Bytes) → IsClient q c → IsClient q (set_connecting c)
  unfolding set_connecting
  set_connecting-IsClient q v = elim (Bool-cases (is_disconnected c)) [
    | inl e ↦ rw e v
    | inr e ↦ rw e (record {
      senders = v.senders;
      orders = v.orders;
      rising = v.rising;
      sent = v.sent;
      timed = v.timed;
    })
  ]

module _ {F : Type 0} (f : Float F) (o : Octets) (buffer : o.Buffer) where
  pub data Reachable : RenetClient F → Type 0 where
    made :
        (config : ConnectionConfig) (has_reliable_socket : Bool) (c : RenetClient F)
        → IsConfig config
        → new f config has_reliable_socket ≡ ok c
        → Reachable c
    made_by_server :
        (config : ConnectionConfig) (has_reliable_socket : Bool) (c : RenetClient F)
        → IsConfig config
        → new_from_server f config has_reliable_socket ≡ ok c
        → Reachable c
    called :
        (c d : RenetClient F) (x : Call) (out : List Bytes)
        → Reachable c
        → Permitted c x
        → call f o buffer c x ≡ ok (d, out)
        → Reachable d

  abbrev pub Gives : RenetClient F × List Bytes → Type 0
  Gives y = InOrder y.0

  -- The client is in order afterwards; the call returns, unless it hands over a slice.
  abbrev pub Safe : Call → Result ChannelError (RenetClient F × List Bytes) → Type 0
  Safe x r = OnReturn Gives r × (carries_slice o x ≡ false → Returns Gives r)

  safe :
      (x : Call) (r : Result ChannelError (RenetClient F × List Bytes)) → Returns Gives r → Safe x r
  safe x r h = (Returns-OnReturn Gives r h, λ e. h)

  received-Safe :
      (packet : Bytes) (queued : ℕ → List Bytes) (read : Result SerializationError (Packet × Bytes))
      (r : Result ChannelError (RenetClient F))
      → from_bytes o packet ≡ read
      → SurvivesRead queued read r
      → Safe (Call.process_packet packet) (r >>= λ d. ok (d, []))
  received-Safe packet queued (ok (p, rest)) r e s =
      (kept r s.0, (λ q. lasting r (s.1 (sym (ap (is_slice_read o) e) ∙ q))))
    where
      kept :
          (r : Result ChannelError (RenetClient F))
          → OnReturn (IsClient queued) r
          → OnReturn Gives (r >>= λ d. ok (d, []))
      kept (ok d) v = (queued, v)
      kept (err x) v = tt
      kept panic v = tt

      lasting :
          (r : Result ChannelError (RenetClient F))
          → Returns (IsClient queued) r
          → Returns Gives (r >>= λ d. ok (d, []))
      lasting r v = Returns-bind (IsClient queued) Gives r (λ d. ok (d, [])) v (λ d w. (queued, w))
  received-Safe packet queued (err x) r e s =
      safe (Call.process_packet packet) (r >>= λ d. ok (d, []))
        (Returns-bind (IsClient queued) Gives r (λ d. ok (d, [])) s (λ d w. (queued, w)))
  received-Safe packet queued panic r e s = absurd s

  pub call-Safe :
      (c : RenetClient F) (x : Call) → InOrder c → Permitted c x → Safe x (call f o buffer c x)
  unfolding call disconnect disconnect_due_to_transport set_connected set_connecting
  call-Safe c Call.set_connected (q, v) p =
      safe Call.set_connected (ok (set_connected c, [])) (q, set_connected-IsClient c q v)
  call-Safe c Call.set_connecting (q, v) p =
      safe Call.set_connecting (ok (set_connecting c, [])) (q, set_connecting-IsClient c q v)
  call-Safe c Call.disconnect (q, v) p =
      safe Call.disconnect (ok (disconnect c, []))
        (q, disconnect_with_reason-IsClient q c disconnected_by_client v)
  call-Safe c Call.disconnect_due_to_transport (q, v) p =
      safe Call.disconnect_due_to_transport (ok (disconnect_due_to_transport c, []))
        (q, disconnect_with_reason-IsClient q c transport v)
  call-Safe c (Call.disconnect_with_reason reason) (q, v) p =
      safe (Call.disconnect_with_reason reason)
        (ok (Connection.disconnect_with_reason c reason, []))
        (q, disconnect_with_reason-IsClient q c reason v)
  call-Safe c Call.get_packets_to_send (q, v) p =
      safe Call.get_packets_to_send (Outgoing.get_packets_to_send o buffer c) (
        Returns-map (λ r. IsClient q r.0) Gives (Outgoing.get_packets_to_send o buffer c)
          (get_packets_to_send-IsClient q o buffer c v) (λ r w. (q, w)))
  call-Safe c (Call.send_message id message) (q, v) p =
      safe (Call.send_message id message) (Calls.send_message c id message >>= λ d. ok (d, [])) (
        Returns-bind (Took q id message) Gives (Calls.send_message c id message) (λ d. ok (d, []))
          (Took-Permitted c id message q v p)
          (λ d t. elim t [ inl w ↦ (q, w) | inr w ↦ (pushed q id message, w) ]))
  call-Safe c (Call.receive_message id) (q, v) p =
      safe (Call.receive_message id) (Calls.receive_message c id >>= λ r. ok (r.0, given r.1)) (
        Returns-bind (λ r. IsClient q r.0) Gives (Calls.receive_message c id)
          (λ r. ok (r.0, given r.1)) (receive_message-IsClient q c id p.0 p.1 p.2 v)
          (λ r w. (q, w)))
  call-Safe c (Call.update duration) (q, v) p =
      safe (Call.update duration) (Calls.update c duration >>= λ d. ok (d, [])) (
        Returns-bind (Elapsed q c duration) Gives (Calls.update c duration) (λ d. ok (d, []))
          (update-IsClient q c duration p v) (λ d w. (q, w.0)))
  call-Safe c (Call.process_packet packet) (q, v) p =
      received-Safe packet q (from_bytes o packet) (Incoming.process_packet f o c packet) refl
        (process_packet-SurvivesRead q f o c packet v)

  Reachable-InOrder : (c : RenetClient F) → Reachable c → InOrder c
  Reachable-InOrder c (made config has_reliable_socket d v e) =
      (no_messages, rw e at (new-IsClient f config has_reliable_socket v).0)
  Reachable-InOrder c (made_by_server config has_reliable_socket d v e) =
      (no_messages, rw e at (new-IsClient f config has_reliable_socket v).1)
  Reachable-InOrder b (called c d x out r p e) = rw e at (call-Safe c x (Reachable-InOrder c r) p).0

  -- However a client got to its state, from a configuration by any sequence of permitted calls: a
  -- permitted call that does not hand over a slice returns, and no `unwrap`, assertion or
  -- arithmetic on times in it panics. Permitted are messages of at most 1.2 GB on a channel that
  -- there is, with less than 2 ^ 64 - 1 messages before it on a reliable one, receiving from a
  -- channel that there is, and updates that do not take the clock beyond `Duration::MAX`.
  pub call-Returns :
      (c : RenetClient F) (x : Call)
      → Reachable c
      → Permitted c x
      → carries_slice o x ≡ false
      → Returns (λ y. Reachable y.0) (call f o buffer c x)
  call-Returns c x r p s =
      go (call f o buffer c x) refl ((call-Safe c x (Reachable-InOrder c r) p).1 s)
    where
      go :
          (y : Result ChannelError (RenetClient F × List Bytes))
          → call f o buffer c x ≡ y
          → Returns Gives y
          → Returns (λ z. Reachable z.0) y
      go (ok (d, out)) e h = called c d x out r p e
      go (err z) e h = absurd h
      go panic e h = absurd h
