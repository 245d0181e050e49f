-- ===== src/Connection/Outgoing/Kept.antt =====
-- `get_packets_to_send` leaves a client in order, and does not panic.
use renet.Base.{
  ℕ, ◌≤◌, ◌≡◌, ◌∙◌, List, [], ◌∷◌, ◌++◌, Bool-cases, inl, inr, some, Result, ok, err, panic, length,
  get_elem?, arith,
}
use renet.Ack.{AckRange}
use renet.Channel.{Bytes, slice_size, Returns, Returns-bind, Returns-map, After-and, After-both}
use renet.Map.{insert, Ascending, Every, Every-insert, insert-Ascending}
use renet.Packet.{
  Octets, Packet, SerializationError, small_reliable, small_unreliable, reliable_slice,
  unreliable_slice, ack, sequence_of, to_bytes,
}
use renet.Packet.Decoded.{OnRead, OnRead-then}
use renet.Packet.Written.{IsWritable, to_bytes_returns}
use renet.SendReliable
use renet.SendReliable.{SendChannelReliable}
use renet.SendReliable.History.{Queued, Holds, get_packets_to_send-Holds}
use renet.SendReliable.Identity.{get_packets_to_send-channel_id}
use renet.SendReliable.Loop.{Matches}
use renet.SendReliable.Memory.{IsChannel, get_packets_to_send-IsChannel}
use renet.SendReliable.Tracked.{AllTracked, get_packets_to_send-AllTracked}
use renet.Unreliable
use renet.Unreliable.{SendChannelUnreliable}
use renet.Unreliable.Untracked.{AllUntracked, get_packets_to_send-AllUntracked}
use renet.Connection.{
  RenetClient, SendChannel, ChannelOrder, reliable_channel, unreliable_channel, PacketSent,
  is_disconnected, packet_serialization, with_send_channel,
}
use renet.Connection.Calls.Messages.{with_unreliable-IsClient}
use renet.Connection.Incoming.Arrivals.{disconnect_with_reason-IsClient}
use renet.Connection.Invariant.{
  IsClient, IsSender, IsReliableAt, AreSmall, IsInfo, IsInfo-SameKinds, IsSent, IsOrder, AreOrders,
  AreOrders-SameKinds, SameKinds, set_reliable-SameKinds, set_unreliable-SameKinds,
  with_sender-IsClient,
}
use renet.Connection.Outgoing.{
  ids_of, largest_of, info_of, record_sent, Made, add_reliable, add_unreliable, serialize,
  send_channel, send_channels, add_acks, hand_over, make_packets, get_packets_to_send,
}

module _ (queued : ℕ → List Bytes) where
  -- The packet can be written, and what is noted of it fits the channels.
  abbrev IsNoted : List SendChannel → Packet → Type 0
  IsNoted channels p = IsWritable p × Returns (IsInfo queued channels) (info_of p)

  abbrev AllNoted : List SendChannel → List Packet → Type 0
  AllNoted channels [] = Unit {0}
  AllNoted channels (p ∷ ps) = IsNoted channels p × AllNoted channels ps

  AllNoted-append :
      (channels : List SendChannel) (ps qs : List Packet)
      → AllNoted channels ps
      → AllNoted channels qs
      → AllNoted channels (ps ++ qs)
  AllNoted-append channels [] qs h k = k
  AllNoted-append channels (p ∷ ps) qs h k = (h.0, AllNoted-append channels ps qs h.1 k)

  AllNoted-SameKinds :
      (before after : List SendChannel) (ps : List Packet)
      → SameKinds before after
      → AllNoted before ps
      → AllNoted after ps
  AllNoted-SameKinds before after [] k h = tt
  AllNoted-SameKinds before after (p ∷ ps) k h = (
    (
      h.0.0,
      Returns-map (IsInfo queued before) (IsInfo queued after) (info_of p) h.0.1
          (λ i x. IsInfo-SameKinds queued before after i k x),
    ),
    AllNoted-SameKinds before after ps k h.1,
  )

  small_ids :
      (id : ℕ) (ms : List (ℕ × Bytes))
      → Every (λ i m. Queued (queued id) i m × (length m ≤ slice_size)) ms
      → AreSmall (queued id) (ids_of ms)
  small_ids id [] e = tt
  small_ids id ((i, m) ∷ ms) e = ((m, e.0.0, e.0.1), small_ids id ms e.1)

  AllTracked-AllNoted :
      (channels : List SendChannel) (id : ℕ) (ps : List Packet)
      → IsReliableAt channels id
      → AllTracked id (Queued (queued id)) ps
      → AllNoted channels ps
  unfolding info_of
  AllTracked-AllNoted channels id [] r t = tt
  AllTracked-AllNoted channels id (small_reliable s j ms ∷ ps) r t =
      ((tt, rw t.0.0 (r, small_ids id ms t.0.1)), AllTracked-AllNoted channels id ps r t.1)
  AllTracked-AllNoted channels id (reliable_slice s j slice ∷ ps) r t =
      ((tt, rw t.0.0 (r, (t.0.1, t.0.2, t.0.3, t.0.4))), AllTracked-AllNoted channels id ps r t.1)
  AllTracked-AllNoted channels id (small_unreliable s j ms ∷ ps) r t = absurd t.0
  AllTracked-AllNoted channels id (unreliable_slice s j slice ∷ ps) r t = absurd t.0
  AllTracked-AllNoted channels id (ack s ranges ∷ ps) r t = absurd t.0

  AllUntracked-AllNoted :
      (channels : List SendChannel) (ps : List Packet) → AllUntracked ps → AllNoted channels ps
  unfolding info_of
  AllUntracked-AllNoted channels [] t = tt
  AllUntracked-AllNoted channels (small_unreliable s j ms ∷ ps) t =
      ((tt, tt), AllUntracked-AllNoted channels ps t.1)
  AllUntracked-AllNoted channels (unreliable_slice s j slice ∷ ps) t =
      ((tt, tt), AllUntracked-AllNoted channels ps t.1)
  AllUntracked-AllNoted channels (small_reliable s j ms ∷ ps) t = absurd t.0
  AllUntracked-AllNoted channels (reliable_slice s j slice ∷ ps) t = absurd t.0
  AllUntracked-AllNoted channels (ack s ranges ∷ ps) t = absurd t.0

  record_sent-IsSent :
      (channels : List SendChannel) (now : ℕ) (ps : List Packet) (sent : List (ℕ × PacketSent))
      → AllNoted channels ps
      → Ascending 0 sent
      → Every (IsSent queued channels now) sent
      → Returns
          (λ m. Ascending 0 m × Every (IsSent queued channels now) m)
          (record_sent now ps sent)
  unfolding record_sent
  record_sent-IsSent channels now [] sent h a e = (a, e)
  record_sent-IsSent channels now (p ∷ ps) sent h a e =
      Returns-bind (IsInfo queued channels) _ (info_of p) _ h.0.1 (λ info i.
        record_sent-IsSent channels now ps
          (insert (sequence_of p) (record { sent_at = now; info = info }) sent) h.1
          (insert-Ascending 0 (sequence_of p) (record { sent_at = now; info = info }) sent
            (omega arith) a)
          (Every-insert (IsSent queued channels now) (sequence_of p)
            (record { sent_at = now; info = info }) sent (omega arith, i) e))

  serialize_returns :
      (o : Octets) (buffer : o.Buffer) (channels : List SendChannel) (ps : List Packet)
      → AllNoted channels ps
      → OnRead (λ r. Unit {0}) (serialize o buffer ps)
  unfolding serialize
  serialize_returns o buffer channels [] h = tt
  serialize_returns o buffer channels (p ∷ ps) h =
      OnRead-then (λ r. Unit {0}) (to_bytes o p buffer) _ (to_bytes_returns o p buffer h.0.0)
        (λ written.
          OnRead-then (λ r. Unit {0}) (serialize o buffer ps) _
            (serialize_returns o buffer channels ps h.1) (λ others. tt))

largest_of-Returns :
    (r : AckRange) (rest : List AckRange) → Returns (λ n. Unit {0}) (largest_of (r ∷ rest))
unfolding largest_of
largest_of-Returns r [] = tt
largest_of-Returns r (n ∷ rest) = largest_of-Returns n rest

module _ {F : Type 0} (queued : ℕ → List Bytes) (o : Octets) where
  -- The client is in order, and what is noted of the packets made so far fits it.
  abbrev Going : Made F → Type 0
  Going m = IsClient queued m.client × AllNoted queued m.client.send_channels m.packets

  -- No channel changes its kind.
  abbrev Goes : Made F → Made F → Type 0
  Goes m n = Going n × SameKinds m.client.send_channels n.client.send_channels

  abbrev SentBy : Made F → ℕ → SendChannelReliable → SendReliable.Sent → Type 0
  SentBy m id d sent =
      (((IsChannel m.client.current_time sent.channel
            × Matches m.client.current_time d.unacked_messages sent.channel.unacked_messages)
          × Holds (queued id) sent.channel)
        × AllTracked d.channel_id (Queued (queued id)) sent.packets)
      × (sent.channel.channel_id ≡ d.channel_id)

  reliable-SentBy :
      (m : Made F) (id : ℕ) (d : SendChannelReliable)
      → IsSender (queued id) m.client.current_time id d
      → Returns (SentBy m id d) (
          SendReliable.get_packets_to_send o d m.client.packet_sequence m.available_bytes
            m.client.current_time)
  reliable-SentBy m id d s =
      let now = m.client.current_time in
      let call =
        SendReliable.get_packets_to_send o d m.client.packet_sequence m.available_bytes now in
      After-and (λ e. ⊥) _ (λ sent. sent.channel.channel_id ≡ d.channel_id) call
        (After-both (λ e. ⊥) _ (λ sent. AllTracked d.channel_id (Queued (queued id)) sent.packets)
          call
          (After-both (λ e. ⊥) _ (λ sent. Holds (queued id) sent.channel) call
            (get_packets_to_send-IsChannel o now now d m.client.packet_sequence m.available_bytes
              (omega arith) s.in_order)
            (get_packets_to_send-Holds (queued id) o now now d m.client.packet_sequence
              m.available_bytes (omega arith) s.in_order s.history))
          (get_packets_to_send-AllTracked o d (Queued (queued id)) now now m.client.packet_sequence
            m.available_bytes (omega arith) s.in_order s.history.entries))
        (get_packets_to_send-channel_id o d m.client.packet_sequence m.available_bytes now)

  add_reliable-Goes :
      (m : Made F) (id : ℕ) (d : SendChannelReliable) (sent : SendReliable.Sent)
      → get_elem? m.client.send_channels id ≡ some (SendChannel.reliable d)
      → d.channel_id ≡ id
      → SentBy m id d sent
      → IsClient queued m.client
      → AllNoted queued m.client.send_channels m.packets
      → Goes m (add_reliable m id sent)
  add_reliable-Goes m id d sent q identity x v n =
      let same : SameKinds m.client.send_channels (add_reliable m id sent).client.send_channels =
        set_reliable-SameKinds m.client.send_channels id d sent.channel q in
      let w : IsClient queued (with_send_channel m.client id (SendChannel.reliable sent.channel)) =
        with_sender-IsClient queued m.client id d sent.channel q
          (record { identity = x.1 ∙ identity; in_order = x.0.0.0.0; history = x.0.0.1 }) v in
      (
        (
          record {
            senders = w.senders;
            orders = w.orders;
            rising = w.rising;
            sent = w.sent;
            timed = w.timed;
          },
          AllNoted-append queued _ m.packets sent.packets
              (AllNoted-SameKinds queued m.client.send_channels _ m.packets same n)
              (AllTracked-AllNoted queued _ id sent.packets (same.reliable_kept id (d, q))
                (rw identity at x.0.1)),
        ),
        same,
      )

  send_channel-Goes :
      (m : Made F) (order : ChannelOrder)
      → IsOrder m.client.send_channels order
      → Going m
      → Returns (Goes m) (send_channel o m order)
  unfolding send_channel
  send_channel-Goes m (unreliable_channel id) (d, q) (v, n) =
      let sent = Unreliable.get_packets_to_send o d m.client.packet_sequence m.available_bytes in
      let same : SameKinds m.client.send_channels (add_unreliable m id sent).client.send_channels =
        set_unreliable-SameKinds m.client.send_channels id d sent.channel q in
      let w : IsClient queued
          (with_send_channel m.client id (SendChannel.unreliable sent.channel)) =
        with_unreliable-IsClient queued m.client id d sent.channel q v in
      rw (q, send_channel)
        (
          (
            record {
              senders = w.senders;
              orders = w.orders;
              rising = w.rising;
              sent = w.sent;
              timed = w.timed;
            },
            AllNoted-append queued _ m.packets sent.packets
                (AllNoted-SameKinds queued m.client.send_channels _ m.packets same n)
                (AllUntracked-AllNoted queued _ sent.packets (
                  get_packets_to_send-AllUntracked o d m.client.packet_sequence m.available_bytes)),
          ),
          same,
        )
  send_channel-Goes m (reliable_channel id) (d, q) (v, n) =
      rw (q, send_channel)
        (Returns-bind (SentBy m id d) (Goes m)
          (SendReliable.get_packets_to_send o d m.client.packet_sequence m.available_bytes
            m.client.current_time)
          _ (reliable-SentBy m id d (v.senders id d q))
          (λ sent x. add_reliable-Goes m id d sent q (v.senders id d q).identity x v n))

  send_channels-Going :
      (m : Made F) (orders : List ChannelOrder)
      → AreOrders m.client.send_channels orders
      → Going m
      → Returns Going (send_channels o m orders)
  unfolding send_channels
  send_channels-Going m [] a g = g
  send_channels-Going m (order ∷ rest) a g =
      Returns-bind (Goes m) Going (send_channel o m order) (λ n. send_channels o n rest)
        (send_channel-Goes m order a.0 g)
        (λ n h.
          send_channels-Going n rest
            (AreOrders-SameKinds m.client.send_channels n.client.send_channels rest h.1 a.1) h.0)

  add_acks-Going : (m : Made F) (acks : List AckRange) → Going m → Going (add_acks o m acks)
  unfolding add_acks info_of
  add_acks-Going m [] g = g
  add_acks-Going m (r ∷ rest) (v, n) = (
    record {
      senders = v.senders;
      orders = v.orders;
      rising = v.rising;
      sent = v.sent;
      timed = v.timed;
    },
    AllNoted-append queued m.client.send_channels m.packets _ n (
      (
        (λ e. cc),
        Returns-bind (λ x. Unit {0}) (IsInfo queued m.client.send_channels) (largest_of (r ∷ rest))
            _ (largest_of-Returns r rest) (λ x u. tt),
      ),
      tt,
    ),
  )

  make_packets-Going : (c : RenetClient F) → IsClient queued c → Returns Going (make_packets o c)
  unfolding make_packets
  make_packets-Going c v =
      Returns-bind Going Going
        (send_channels o
          (record { client = c; packets = []; available_bytes = c.available_bytes_per_tick })
          c.channel_send_order)
        _
        (send_channels-Going
          (record { client = c; packets = []; available_bytes = c.available_bytes_per_tick })
          c.channel_send_order v.orders (v, tt))
        (λ m g. add_acks-Going m m.client.pending_acks g)

  hand_over-IsClient :
      (c : RenetClient F) (r : Result SerializationError (List Bytes × ℕ))
      → OnRead (λ x. Unit {0}) r
      → IsClient queued c
      → Returns (λ x. IsClient queued x.0) (hand_over o c r)
  unfolding hand_over
  hand_over-IsClient c (ok (payloads, bytes_sent)) h v = record {
    senders = v.senders;
    orders = v.orders;
    rising = v.rising;
    sent = v.sent;
    timed = v.timed;
  }
  hand_over-IsClient c (err e) h v =
      disconnect_with_reason-IsClient queued c (packet_serialization e) v
  hand_over-IsClient c panic h v = absurd h

  -- A client that is in order stays in order, whatever its channels hold and whatever fits in the
  -- buffer, and the call does not panic.
  pub get_packets_to_send-IsClient :
      (buffer : o.Buffer) (c : RenetClient F)
      → IsClient queued c
      → Returns (λ r. IsClient queued r.0) (get_packets_to_send o buffer c)
  unfolding get_packets_to_send
  get_packets_to_send-IsClient buffer c v = elim (Bool-cases (is_disconnected c)) [
    | inl e ↦ rw e v
    | inr e ↦ rw e (
        Returns-bind Going _ (make_packets o c) _ (make_packets-Going c v) (λ m g.
          Returns-bind
            (λ sent.
              Ascending 0 sent
              × Every (IsSent queued m.client.send_channels m.client.current_time) sent)
            _ (record_sent m.client.current_time m.packets m.client.sent_packets) _
            (record_sent-IsSent queued m.client.send_channels m.client.current_time m.packets
              m.client.sent_packets g.1 g.0.rising g.0.sent)
            (λ sent s.
              hand_over-IsClient (record m.client { sent_packets = sent })
                (serialize o buffer m.packets)
                (serialize_returns queued o buffer m.client.send_channels m.packets g.1)
                (record {
                  senders = g.0.senders;
                  orders = g.0.orders;
                  rising = s.0;
                  sent = s.1;
                  timed = g.0.timed;
                }))))
  ]
