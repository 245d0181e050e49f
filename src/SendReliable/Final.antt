-- ===== src/SendReliable/Final.antt =====
-- What the rounds of `get_packets_to_send` keep holds when it returns.
use renet.Base.{ℕ, ◌+◌, ◌<◌, ◌≤◌, ◌≡◌, refl, List, [], ◌∷◌, length, arith, sub_u64, ok}
use renet.Channel.{Bytes, slice_size, Returns, Returns-bind}
use renet.Map.{Every}
use renet.Packet.{Octets}
use renet.SendReliable.{
  SlicedMessage, UnackedMessage, SendChannelReliable, Sending, Sent, push_slice, send_small,
  collect, flush, flush_rest, send_rounds, start, finish, get_packets_to_send,
}
use renet.SendReliable.Loop.{IsSliced, message_of, Matches, send_rounds-Keeps}
use renet.SendReliable.Memory.{IsChannel, IsChannel-later}

-- The loop's variables at the end of a call.
pub record Ends (P : Sending → Type 0) (sent : Sent) : Type 0 where
  pub last : Sending
  pub holds : P last
  pub packets : sent.packets ≡ last.packets
  pub sequence : sent.packet_sequence ≡ last.packet_sequence
  pub available : sent.available_bytes ≡ last.available_bytes
  pub none_left : last.small_messages ≡ []

-- What holds of the variables at the start, and is kept by the steps that send something, holds
-- at the end.
module _ (o : Octets) (c : SendChannelReliable) (t now : ℕ) (P : Sending → Type 0)
    (Q : ℕ → Bytes → Type 0)
    (push : (id i : ℕ) (s : SlicedMessage) (l : Sending)
      → slice_size ≤ l.available_bytes
      → IsSliced now s
      → Q id s.message
      → i < s.num_slices
      → P l
      → P (push_slice c id s i l))
    (add : (id : ℕ) (m : Bytes) (size : ℕ) (l : Sending)
      → Q id m
      → length m ≤ slice_size
      → length m ≤ l.available_bytes
      → P l
      → P (collect id m size (record l { available_bytes = sub_u64 l.available_bytes (length m) })))
    (flush_kept : (l : Sending) → P l → P (flush c l)) where
  add_small :
      (id : ℕ) (m : Bytes) (l : Sending)
      → Q id m
      → length m ≤ slice_size
      → length m ≤ l.available_bytes
      → P l
      → P (send_small o c id m l)
  unfolding send_small flush
  add_small id m l q k b p =
      let size : ℕ = length m + o.varint_len (length m) + o.varint_len id in
      let kept : P (
          collect id m size (record l { available_bytes = sub_u64 l.available_bytes (length m) })) =
        add id m size l q k b p in
      let flushed : P (
          collect id m size
            (record (flush c l) { available_bytes = sub_u64 l.available_bytes (length m) })) =
        add id m size (flush c l) q k b (flush_kept l p) in
      ground (arith, kept, flushed)

  finish-Ends : (r : Sending × List (ℕ × UnackedMessage)) → P r.0 → Ends P (finish c r)
  unfolding finish flush_rest flush
  finish-Ends (l, n) p = go l.small_messages refl
    where
      go : (ms : List (ℕ × Bytes)) → l.small_messages ≡ ms → Ends P (finish c (l, n))
      go [] e = record {
        last = l;
        holds = p;
        packets = rw (e, flush_rest) refl;
        sequence = rw (e, flush_rest) refl;
        available = rw (e, flush_rest) refl;
        none_left = e;
      }
      go (x ∷ ms) e = record {
        last = flush c l;
        holds = flush_kept l p;
        packets = rw (e, flush_rest) refl;
        sequence = rw (e, flush_rest) refl;
        available = rw (e, flush_rest) refl;
        none_left = refl;
      }

  pub get_packets_to_send-Ends :
      (packet_sequence available_bytes : ℕ)
      → t ≤ now
      → IsChannel t c
      → Every (λ k u. Q k (message_of u)) c.unacked_messages
      → P (start packet_sequence available_bytes)
      → Returns (Ends P) (get_packets_to_send o c packet_sequence available_bytes now)
  unfolding get_packets_to_send
  get_packets_to_send-Ends packet_sequence available_bytes h v a p =
      Returns-bind (λ r. P r.0 × Matches now c.unacked_messages r.1) (Ends P)
        (send_rounds o c now c.unacked_messages (start packet_sequence available_bytes))
        (λ r. ok (finish c r))
        (send_rounds-Keeps o c now P Q push add_small c.unacked_messages
          (start packet_sequence available_bytes) (IsChannel-later t now c h v).entries a p)
        (λ r x. finish-Ends r x.0)
