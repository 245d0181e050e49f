-- ===== src/Delivery/Arrival.antt =====
-- A packet that carries what was queued reaches an ordered channel.
use renet.Base.{
  ℕ, zero, suc, ◌≤◌, ◌≡◌, refl, sym, ap, ◌∙◌, List, [], ◌∷◌, ◌++◌, length, length-append, take,
  get_elem?-append_left, arith,
}
use renet.Channel.{Bytes, Slice, Ensures, Ensures-bind}
use renet.Map.{Every}
use renet.Packet.{Packet, small_reliable, small_unreliable, reliable_slice, unreliable_slice, ack}
use renet.Slice.{count_slices}
use renet.Slice.Store.{payload}
use renet.Slice.Received.{get_elem?-below}
use renet.ReceiveReliable
use renet.ReceiveReliable.{ReceiveChannelReliable}
use renet.ReceiveReliable.Order.{Follows, process_message-Follows}
use renet.ReceiveReliable.Slices.{slice_of, process_slice-Follows}
use renet.SendReliable.Packets.{Carries, AllCarry}
use renet.SendReliable.History.{Queued}
use renet.Delivery.{process_messages, process_packet}

module _ (queued : List Bytes) (m : Bytes) where
  grow : (id : ℕ) (n : Bytes) → Queued queued id n → Queued (queued ++ m ∷ []) id n
  grow id n q = get_elem?-append_left queued (m ∷ []) id (get_elem?-below queued id n q) ∙ q

  Every-grow :
      (ms : List (ℕ × Bytes)) → Every (Queued queued) ms → Every (Queued (queued ++ m ∷ [])) ms
  Every-grow [] e = tt
  Every-grow ((id, n) ∷ ms) e = (grow id n e.0, Every-grow ms e.1)

  Carries-grow : (p : Packet) → Carries (Queued queued) p → Carries (Queued (queued ++ m ∷ [])) p
  Carries-grow (small_reliable sequence channel_id messages) c = Every-grow messages c
  Carries-grow (reliable_slice sequence channel_id slice) (n, q, v, h, k, e) =
      (n, grow slice.message_id n q, v, h, k, e)
  Carries-grow (small_unreliable sequence channel_id messages) c = absurd c
  Carries-grow (unreliable_slice sequence channel_id slice) c = absurd c
  Carries-grow (ack sequence ack_ranges) c = absurd c

  pub AllCarry-grow :
      (ps : List Packet) → AllCarry (Queued queued) ps → AllCarry (Queued (queued ++ m ∷ [])) ps
  AllCarry-grow [] c = tt
  AllCarry-grow (p ∷ ps) c = (Carries-grow p c.0, AllCarry-grow ps c.1)

  take-grow : (n : ℕ) (xs : List Bytes) → n ≤ length xs → take n (xs ++ m ∷ []) ≡ take n xs
  take-grow zero xs h = refl
  take-grow (suc n) [] h = elim h [ ]
  take-grow (suc n) (x ∷ xs) h = rw (take-grow n xs (omega arith)) refl

  pub Follows-grow :
      (delivered : List Bytes) (c : ReceiveChannelReliable)
      → Follows queued delivered c
      → Follows (queued ++ m ∷ []) delivered c
  Follows-grow delivered c f = (
    record {
      order = f.0.order;
      stored = λ id n e. grow id n (f.0.stored id n e);
      given = f.0.given ∙ sym (take-grow c.oldest_pending_message_id queued f.0.bounded);
      bounded = omega (arith, f.0.bounded, length-append queued (m ∷ []));
    },
    λ id k e. let (n, q, v, h) = f.1 id k e in (n, grow id n q, v, h),
  )

slice_of_lem :
    (s : Slice) (m : Bytes)
    → s.num_slices ≡ count_slices m
    → s.payload ≡ payload m s.slice_index
    → slice_of m s.message_id s.slice_index ≡ s
slice_of_lem s m n p =
    ap
      (λ k. record {
        message_id = s.message_id;
        slice_index = s.slice_index;
        num_slices = k;
        payload = payload m s.slice_index;
      })
      (sym n)
    ∙ ap
        (λ b. record {
          message_id = s.message_id;
          slice_index = s.slice_index;
          num_slices = s.num_slices;
          payload = b;
        })
        (sym p)

module _ (queued delivered : List Bytes) where
  process_messages-Follows :
      (c : ReceiveChannelReliable) (ms : List (ℕ × Bytes))
      → Every (Queued queued) ms
      → Follows queued delivered c
      → Ensures (Follows queued delivered) (process_messages c ms)
  unfolding process_messages
  process_messages-Follows c [] e f = f
  process_messages-Follows c ((id, m) ∷ ms) e f =
      Ensures-bind (Follows queued delivered) (Follows queued delivered)
        (ReceiveReliable.process_message c m id) (λ d. process_messages d ms)
        (process_message-Follows queued delivered c m id e.0 f)
        (λ d g. process_messages-Follows d ms e.1 g)

  pub process_packet-Follows :
      (c : ReceiveChannelReliable) (p : Packet)
      → Carries (Queued queued) p
      → Follows queued delivered c
      → Ensures (Follows queued delivered) (process_packet c p)
  unfolding process_packet
  process_packet-Follows c (small_reliable sequence channel_id messages) k f =
      process_messages-Follows c messages k f
  process_packet-Follows c (reliable_slice sequence channel_id slice) (m, q, v, h, n, e) f =
      let same : slice_of m slice.message_id slice.slice_index ≡ slice = slice_of_lem slice m n e in
      rw (sym same)
        (process_slice-Follows queued delivered c m slice.message_id slice.slice_index q v h f)
  process_packet-Follows c (small_unreliable sequence channel_id messages) k f = absurd k
  process_packet-Follows c (unreliable_slice sequence channel_id slice) k f = absurd k
  process_packet-Follows c (ack sequence ack_ranges) k f = absurd k
