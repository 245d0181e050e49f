-- ===== src/Connection/Calls/Clock.antt =====
-- `update`: the clock of a client goes on, and what is too old is forgotten.
use renet.Base.{
  ℕ, ◌+◌, ◌-◌, ◌≤◌, ◌≡◌, refl, List, [], ◌∷◌, false, Bool-cases, inl, inr, ltb, leb, arith,
}
use renet.Channel.{Bytes, Returns, Returns-bind}
use renet.Map.{remove, Ascending, Every, Every-remove, remove-Ascending}
use renet.ReceiveUnreliable
use renet.ReceiveUnreliable.Discard.{IsTimed, discard_incomplete_old_slices-IsTimed}
use renet.ReceiveUnreliable.{ReceiveChannelUnreliable}
use renet.SendReliable.Memory.{IsChannel-later}
use renet.Connection.{RenetClient, SendChannel, ReceiveChannel, PacketSent}
use renet.Connection.Calls.{
  max_duration, discard_after, lost_packets, remove_all, discard_slices, update,
}
use renet.Connection.Invariant.{IsClient, IsSent, AllTimed}

past-later :
    (t now : ℕ) (m : List (ℕ × ℕ)) → t ≤ now → Every (λ k s. s ≤ t) m → Every (λ k s. s ≤ now) m
past-later t now [] h e = tt
past-later t now ((k, s) ∷ m) h e = (omega (arith, e.0), past-later t now m h e.1)

IsTimed-later : (t now : ℕ) (c : ReceiveChannelUnreliable) → t ≤ now → IsTimed t c → IsTimed now c
IsTimed-later t now c h v = record {
  rising = v.rising;
  past = past-later t now c.slices_last_received h v.past;
  present = v.present;
}

discard_slices-AllTimed :
    (t now : ℕ) (cs : List ReceiveChannel)
    → t ≤ now
    → AllTimed t cs
    → Returns (AllTimed now) (discard_slices now cs)
unfolding discard_slices
discard_slices-AllTimed t now [] h v = tt
discard_slices-AllTimed t now (ReceiveChannel.unreliable c ∷ cs) h v =
    Returns-bind (IsTimed now) (AllTimed now)
      (ReceiveUnreliable.discard_incomplete_old_slices c now) _
      (discard_incomplete_old_slices-IsTimed now c (IsTimed-later t now c h v.0))
      (λ d w.
        Returns-bind (AllTimed now) (AllTimed now) (discard_slices now cs) _
          (discard_slices-AllTimed t now cs h v.1) (λ ds ws. (w, ws)))
discard_slices-AllTimed t now (ReceiveChannel.reliable c ∷ cs) h v =
    Returns-bind (AllTimed now) (AllTimed now) (discard_slices now cs) _
      (discard_slices-AllTimed t now cs h v) (λ ds ws. ws)
discard_slices-AllTimed t now (ReceiveChannel.empty ∷ cs) h v =
    Returns-bind (AllTimed now) (AllTimed now) (discard_slices now cs) _
      (discard_slices-AllTimed t now cs h v) (λ ds ws. ws)

module _ (P : ℕ → PacketSent → Type 0) where
  remove_all-Every :
      (ids : List ℕ) (m : List (ℕ × PacketSent)) → Every P m → Every P (remove_all ids m)
  unfolding remove_all
  remove_all-Every [] m e = e
  remove_all-Every (id ∷ ids) m e = remove_all-Every ids (remove id m) (Every-remove P id m e)

remove_all-Ascending :
    (ids : List ℕ) (m : List (ℕ × PacketSent)) → Ascending 0 m → Ascending 0 (remove_all ids m)
unfolding remove_all
remove_all-Ascending [] m a = a
remove_all-Ascending (id ∷ ids) m a =
    remove_all-Ascending ids (remove id m) (remove-Ascending 0 id m a)

-- What was sent in the past: the age of no packet is taken below 0.
lost_packets-Returns :
    (now : ℕ) (m : List (ℕ × PacketSent))
    → Every (λ k p. p.sent_at ≤ now) m
    → Returns (λ lost. Unit {0}) (lost_packets now m)
unfolding lost_packets
lost_packets-Returns now [] e = tt
lost_packets-Returns now ((k, p) ∷ m) e = elim (Bool-cases (leb discard_after (now - p.sent_at))) [
  | inl q ↦
      rw (past, q)
        (Returns-bind (λ lost. Unit {0}) (λ lost. Unit {0}) (lost_packets now m) _
          (lost_packets-Returns now m e.1) (λ lost u. tt))
  | inr q ↦ rw (past, q) tt
]
  where
    past : ltb now p.sent_at ≡ false
    past = ground (arith, e.0)

Every-later :
    (queued : ℕ → List Bytes) (channels : List SendChannel) (t now : ℕ) (m : List (ℕ × PacketSent))
    → t ≤ now
    → Every (IsSent queued channels t) m
    → Every (IsSent queued channels now) m × Every (λ k p. p.sent_at ≤ now) m
Every-later queued channels t now [] h e = (tt, tt)
Every-later queued channels t now ((k, p) ∷ m) h e =
    let rest : Every (IsSent queued channels now) m × Every (λ k p. p.sent_at ≤ now) m =
      Every-later queued channels t now m h e.1 in
    (((omega (arith, e.0.0), e.0.1), rest.0), (omega (arith, e.0.0), rest.1))

-- A client that is in order stays in order, and the call does not panic while the clock is not
-- beyond `Duration::MAX`.
module _ {F : Type 0} (queued : ℕ → List Bytes) where
  -- What `update` leaves: the clock has gone on, and the connection is as it was.
  abbrev pub Elapsed : RenetClient F → ℕ → RenetClient F → Type 0
  Elapsed c duration d =
      IsClient queued d
      × (d.connection_status ≡ c.connection_status)
      × (d.current_time ≡ c.current_time + duration)

  pub update-IsClient :
      (c : RenetClient F) (duration : ℕ)
      → c.current_time + duration ≤ max_duration
      → IsClient queued c
      → Returns (Elapsed c duration) (update c duration)
  unfolding update
  update-IsClient c duration h v = rw within (
      Returns-bind (AllTimed (c.current_time + duration)) _
        (discard_slices (c.current_time + duration) c.receive_channels) _
        (discard_slices-AllTimed c.current_time (c.current_time + duration) c.receive_channels
          (omega arith) v.timed)
        (λ channels w.
          Returns-bind (λ lost. Unit {0}) _
            (lost_packets (c.current_time + duration) c.sent_packets) _
            (lost_packets-Returns (c.current_time + duration) c.sent_packets later.1)
            (λ lost u. (
              record {
                senders = λ id d e.
                    let s = v.senders id d e in
                    record {
                      identity = s.identity;
                      in_order =
                          IsChannel-later c.current_time (c.current_time + duration) d (omega arith)
                            s.in_order;
                      history = s.history;
                    };
                orders = v.orders;
                rising = remove_all-Ascending lost c.sent_packets v.rising;
                sent =
                    remove_all-Every (IsSent queued c.send_channels (c.current_time + duration))
                      lost c.sent_packets later.0;
                timed = w;
              },
              refl,
              refl,
            ))))
    where
      within : ltb max_duration (c.current_time + duration) ≡ false
      within = ground (arith, h)

      later :
          Every (IsSent queued c.send_channels (c.current_time + duration)) c.sent_packets
          × Every (λ k p. p.sent_at ≤ c.current_time + duration) c.sent_packets
      later =
          Every-later queued c.send_channels c.current_time (c.current_time + duration)
            c.sent_packets (omega arith) v.sent
