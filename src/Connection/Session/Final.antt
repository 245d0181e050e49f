-- ===== src/Connection/Session/Final.antt =====
-- The end of a connection: what a disconnected client still does.
use renet.Base.{ℕ, ◌+◌, ◌≤◌, arith, ◌≡◌, ◌∙◌, refl, true, List, [], ◌∷◌, ok}
use renet.Channel.{Bytes, Returns, Returns-bind, Returns-map}
use renet.Float.{Float}
use renet.Packet.{Octets}
use renet.Connection.{
  RenetClient, DisconnectReason, disconnected, is_disconnected, disconnect_with_reason,
  set_connected, set_connecting, disconnect, disconnect_due_to_transport,
}
use renet.Connection.Calls.{max_duration, update, send_message, receive_message}
use renet.Connection.Calls.Clock.{Elapsed, update-IsClient}
use renet.Connection.Incoming.{process_packet}
use renet.Connection.Invariant.{IsClient}
use renet.Connection.Outgoing.{get_packets_to_send}
use renet.Connection.Session.{Call, call, run}

-- The time that the calls let pass.
unfoldable pub elapsed : List Call → ℕ
elapsed [] = 0
elapsed (Call.set_connected ∷ rest) = elapsed rest
elapsed (Call.set_connecting ∷ rest) = elapsed rest
elapsed (Call.disconnect ∷ rest) = elapsed rest
elapsed (Call.disconnect_due_to_transport ∷ rest) = elapsed rest
elapsed (Call.get_packets_to_send ∷ rest) = elapsed rest
elapsed (Call.disconnect_with_reason reason ∷ rest) = elapsed rest
elapsed (Call.send_message id message ∷ rest) = elapsed rest
elapsed (Call.receive_message id ∷ rest) = elapsed rest
elapsed (Call.process_packet packet ∷ rest) = elapsed rest
elapsed (Call.update duration ∷ rest) = duration + elapsed rest

elapsed-cons : (x : Call) (xs : List Call) → elapsed (x ∷ xs) ≡ elapsed (x ∷ []) + elapsed xs
unfolding elapsed
elapsed-cons (Call.set_connected) xs = omega arith
elapsed-cons (Call.set_connecting) xs = omega arith
elapsed-cons (Call.disconnect) xs = omega arith
elapsed-cons (Call.disconnect_due_to_transport) xs = omega arith
elapsed-cons (Call.get_packets_to_send) xs = omega arith
elapsed-cons (Call.disconnect_with_reason reason) xs = omega arith
elapsed-cons (Call.send_message id message) xs = omega arith
elapsed-cons (Call.receive_message id) xs = omega arith
elapsed-cons (Call.process_packet packet) xs = omega arith
elapsed-cons (Call.update duration) xs = omega arith

module _ {F : Type 0} (queued : ℕ → List Bytes) (f : Float F) (o : Octets) (buffer : o.Buffer)
    (reason : DisconnectReason) where
  -- The client is disconnected for the same reason.
  abbrev Ended : RenetClient F → Type 0
  Ended c = IsClient queued c × (c.connection_status ≡ disconnected reason)

  is_ended :
      (c : RenetClient F) → c.connection_status ≡ disconnected reason → is_disconnected c ≡ true
  is_ended c h = rw h refl

  -- The client has ended, its clock has gone on by the call, and the call hands out nothing.
  abbrev Goes : RenetClient F → ℕ → RenetClient F × List Bytes → Type 0
  Goes c duration r = Ended r.0 × (r.0.current_time ≡ c.current_time + duration) × (r.1 ≡ [])

  call-Ended :
      (c : RenetClient F) (x : Call)
      → c.current_time + elapsed (x ∷ []) ≤ max_duration
      → Ended c
      → Returns (Goes c (elapsed (x ∷ []))) (call f o buffer c x)
  unfolding elapsed call set_connected set_connecting disconnect disconnect_due_to_transport
      disconnect_with_reason send_message receive_message process_packet get_packets_to_send
  call-Ended c Call.set_connected t (v, h) = rw (is_ended c h) ((v, h), omega arith, refl)
  call-Ended c Call.set_connecting t (v, h) = rw (is_ended c h) ((v, h), omega arith, refl)
  call-Ended c Call.disconnect t (v, h) = rw (is_ended c h) ((v, h), omega arith, refl)
  call-Ended c Call.disconnect_due_to_transport t (v, h) =
      rw (is_ended c h) ((v, h), omega arith, refl)
  call-Ended c Call.get_packets_to_send t (v, h) = rw (is_ended c h) ((v, h), omega arith, refl)
  call-Ended c (Call.disconnect_with_reason other) t (v, h) =
      rw (is_ended c h) ((v, h), omega arith, refl)
  call-Ended c (Call.send_message id message) t (v, h) =
      rw (is_ended c h) ((v, h), omega arith, refl)
  call-Ended c (Call.receive_message id) t (v, h) = rw (is_ended c h) ((v, h), omega arith, refl)
  call-Ended c (Call.process_packet packet) t (v, h) = rw (is_ended c h) ((v, h), omega arith, refl)
  call-Ended c (Call.update duration) t (v, h) =
      Returns-bind (Elapsed queued c duration) _ (update c duration) (λ d. ok (d, []))
        (update-IsClient queued c duration (omega (arith, t)) v)
        (λ d w. ((w.0, w.1 ∙ h), omega (arith, w.2), refl))

  run-Ended :
      (c : RenetClient F) (xs : List Call)
      → c.current_time + elapsed xs ≤ max_duration
      → Ended c
      → Returns (λ r. Ended r.0 × (r.1 ≡ [])) (run f o buffer c xs)
  unfolding run
  run-Ended c [] t e = (e, refl)
  run-Ended c (x ∷ xs) t e =
      let split : elapsed (x ∷ xs) ≡ elapsed (x ∷ []) + elapsed xs = elapsed-cons x xs in
      Returns-bind (Goes c (elapsed (x ∷ []))) _ (call f o buffer c x) _
        (call-Ended c x (omega (arith, t, split)) e)
        (λ r p.
          Returns-bind (λ s. Ended s.0 × (s.1 ≡ [])) _ (run f o buffer r.0 xs) _
            (run-Ended r.0 xs (omega (arith, t, split, p.1)) p.0)
            (λ s q. (q.0, rw (p.2, q.1) refl)))

  -- A client in order that is disconnected stays disconnected, for the reason that it was
  -- disconnected for first, whatever calls are made on it, whichever reason they give and whatever
  -- packets arrive. The calls return, and hand out no message and no packet, where the updates do
  -- not take the clock beyond `Duration::MAX`.
  pub disconnected_is_final :
      (c : RenetClient F) (xs : List Call)
      → IsClient queued c
      → c.connection_status ≡ disconnected reason
      → c.current_time + elapsed xs ≤ max_duration
      → Returns
          (λ r. (r.0.connection_status ≡ disconnected reason) × (r.1 ≡ []))
          (run f o buffer c xs)
  disconnected_is_final c xs v h t =
      Returns-map (λ r. Ended r.0 × (r.1 ≡ []))
        (λ r. (r.0.connection_status ≡ disconnected reason) × (r.1 ≡ [])) (run f o buffer c xs)
        (run-Ended c xs t (v, h)) (λ r e. (e.0.1, e.1))
