-- ===== src/Delivery/InOrder.antt =====
-- From one side to the other: what is handed out is the front of what was queued.
use renet.Base.{
  ℕ, ◌+◌, ◌<◌, ◌≤◌, ◌^◌, ◌≡◌, refl, List, [], ◌∷◌, ◌++◌, Option, none, some, length, length-append,
  get_elem?, take, arith, Result, ok,
}
use renet.Channel.{
  reliable_channel_max_memory_reached, Bytes, ChannelError, Ensures, Ensures-bind, Ensures-map,
  Returns-Ensures, After-both,
}
use renet.Packet.{Octets, Packet}
use renet.Slice.{count_slices}
use renet.ReceiveReliable.Order.{Follows, new-Follows, receive_message-Follows}
use renet.SendReliable.{Sent, send_message, get_packets_to_send}
use renet.SendReliable.Loop.{Matches}
use renet.SendReliable.Memory.{
  IsChannel, IsChannel-later, new-IsChannel, send_message-IsChannel, get_packets_to_send-IsChannel,
}
use renet.SendReliable.Packets.{AllCarry, AllCarry-append, get_packets_to_send_carries}
use renet.SendReliable.History.{
  Queued, Holds, new-Holds, send_message-Holds, get_packets_to_send-Holds,
}
use renet.Delivery.{
  World, Step, queues, waits, sends, arrives, acknowledges, acknowledges_slice, takes, acknowledge,
  acknowledge_slice, process_packet, step, run, new,
}
use renet.Delivery.Arrival.{AllCarry-grow, Follows-grow, process_packet-Follows}
use renet.Delivery.Invariant.{
  IsInOrder, IsShort, AreShort, AllCarry-get, Sender, with_sender, acknowledge-Sender,
  acknowledge_slice-Sender,
}

-- After a step: in order, and at most one message more is queued.
abbrev Stepped : World → World → Type 0
Stepped w x = IsInOrder x × (length x.queued ≤ length w.queued + 1)

queues-Stepped :
    (o : Octets) (w : World) (m : Bytes)
    → length w.queued + 1 < 2 ^ 64
    → count_slices m ≤ 1_000_000
    → IsInOrder w
    → Ensures (Stepped w) (step o w (queues m))
unfolding step count_slices
queues-Stepped o w m h b v =
    Ensures-bind (λ c. IsChannel w.current_time c × Holds (w.queued ++ m ∷ []) c) (Stepped w)
      (send_message w.sender m) (λ c. ok (record w { sender = c; queued = w.queued ++ m ∷ [] }))
      (After-both (λ e. e ≡ reliable_channel_max_memory_reached) (IsChannel w.current_time)
        (Holds (w.queued ++ m ∷ [])) (send_message w.sender m)
        (send_message-IsChannel w.current_time w.sender m
          (omega (arith, v.sender.limited, v.history.room)) (omega (arith, v.history.number)) b
          v.sender)
        (send_message-Holds w.queued w.sender m (omega (arith, v.history.number)) v.history))
      (λ c k. (
        record {
          sender = k.0;
          history = k.1;
          carried = AllCarry-grow w.queued m w.packets v.carried;
          receiver = Follows-grow w.queued m w.delivered w.receiver v.receiver;
        },
        omega (arith, length-append w.queued (m ∷ [])),
      ))

sends-Stepped :
    (o : Octets) (w : World) (available_bytes : ℕ)
    → IsInOrder w
    → Ensures (Stepped w) (step o w (sends available_bytes))
unfolding step
sends-Stepped o w a v =
    Ensures-bind Made (Stepped w) call
      (λ sent. ok (record w {
        sender = sent.channel;
        packet_sequence = sent.packet_sequence;
        packets = w.packets ++ sent.packets;
      }))
      (Returns-Ensures Made call (
        After-both (λ x. ⊥)
          (λ sent.
            IsChannel w.current_time sent.channel
            × Matches w.current_time w.sender.unacked_messages sent.channel.unacked_messages)
          (λ sent. Holds w.queued sent.channel × AllCarry (Queued w.queued) sent.packets) call
          (get_packets_to_send-IsChannel o w.current_time w.current_time w.sender w.packet_sequence
            a (omega arith) v.sender)
          (After-both (λ x. ⊥) (λ sent. Holds w.queued sent.channel)
            (λ sent. AllCarry (Queued w.queued) sent.packets) call
            (get_packets_to_send-Holds w.queued o w.current_time w.current_time w.sender
              w.packet_sequence a (omega arith) v.sender v.history)
            (get_packets_to_send_carries o w.sender (Queued w.queued) w.current_time w.current_time
              w.packet_sequence a (omega arith) v.sender v.history.entries))))
      (λ sent k. (
        record {
          sender = k.0.0;
          history = k.1.0;
          carried = AllCarry-append (Queued w.queued) w.packets sent.packets v.carried k.1.1;
          receiver = v.receiver;
        },
        omega arith,
      ))
  where
    call : Result ChannelError Sent
    call = get_packets_to_send o w.sender w.packet_sequence a w.current_time

    Made : Sent → Type 0
    Made sent =
        (IsChannel w.current_time sent.channel
          × Matches w.current_time w.sender.unacked_messages sent.channel.unacked_messages)
        × (Holds w.queued sent.channel × AllCarry (Queued w.queued) sent.packets)

arrives-Stepped :
    (o : Octets) (w : World) (n : ℕ) → IsInOrder w → Ensures (Stepped w) (step o w (arrives n))
unfolding step
arrives-Stepped o w n v = go (get_elem? w.packets n) refl
  where
    go :
        (found : Option Packet)
        → get_elem? w.packets n ≡ found
        → Ensures (Stepped w) (step o w (arrives n))
    go none e = rw (e, step) (v, omega arith)
    go (some p) e =
        rw (e, step)
          (Ensures-bind (Follows w.queued w.delivered) (Stepped w) (process_packet w.receiver p)
            (λ d. ok (record w { receiver = d }))
            (process_packet-Follows w.queued w.delivered w.receiver p
              (AllCarry-get (Queued w.queued) w.packets n p v.carried e) v.receiver)
            (λ d f. (
              record { sender = v.sender; history = v.history; carried = v.carried; receiver = f },
              omega arith,
            )))

step-Stepped :
    (o : Octets) (w : World) (s : Step)
    → length w.queued + 1 < 2 ^ 64
    → IsShort s
    → IsInOrder w
    → Ensures (Stepped w) (step o w s)
unfolding step
step-Stepped o w (queues m) h b v = queues-Stepped o w m h b v
step-Stepped o w (waits time) h b v = (
  record {
    sender = IsChannel-later w.current_time (w.current_time + time) w.sender (omega arith) v.sender;
    history = v.history;
    carried = v.carried;
    receiver = v.receiver;
  },
  omega arith,
)
step-Stepped o w (sends a) h b v = sends-Stepped o w a v
step-Stepped o w (arrives n) h b v = arrives-Stepped o w n v
step-Stepped o w (acknowledges id) h b v =
    Ensures-bind (Sender w) (Stepped w) (acknowledge w.sender id)
      (λ c. ok (record w { sender = c })) (acknowledge-Sender w id v)
      (λ c k. (with_sender w c v k, omega arith))
step-Stepped o w (acknowledges_slice id index) h b v =
    Ensures-bind (Sender w) (Stepped w) (acknowledge_slice w.sender id index)
      (λ c. ok (record w { sender = c })) (acknowledge_slice-Sender w id index v)
      (λ c k. (with_sender w c v k, omega arith))
step-Stepped o w takes h b v = (
  record {
    sender = v.sender;
    history = v.history;
    carried = v.carried;
    receiver = receive_message-Follows w.queued w.delivered w.receiver (omega arith) v.receiver;
  },
  omega arith,
)

run-IsInOrder :
    (o : Octets) (w : World) (steps : List Step)
    → length w.queued + length steps + 1 < 2 ^ 64
    → AreShort steps
    → IsInOrder w
    → Ensures IsInOrder (run o w steps)
unfolding run
run-IsInOrder o w [] h b v = v
run-IsInOrder o w (s ∷ rest) h b v =
    Ensures-bind (Stepped w) IsInOrder (step o w s) (λ x. run o x rest)
      (step-Stepped o w s (omega arith) b.0 v)
      (λ x k. run-IsInOrder o x rest (omega (arith, k.1)) b.1 k.0)

-- What was handed out is the front of what was queued.
abbrev pub IsFront : World → Type 0
IsFront w = w.delivered ≡ take w.receiver.oldest_pending_message_id w.queued

-- A reliable sending channel and an ordered receiving one, both new: whatever is queued, sent,
-- lost, repeated, reordered, acknowledged and taken, in any order, neither end ever panics, the only
-- error is that memory ran out, and the messages handed out are the front of the messages queued,
-- in order. For fewer than 2 ^ 64 - 1 steps, messages of at most 1,000,000 slices, and a memory
-- limit on the sending side to which one such message can be added.
pub run_delivers_in_order :
    (o : Octets) (channel_id resend_time max_send max_receive : ℕ) (steps : List Step)
    → max_send + 1_200_000_000 < 2 ^ 64
    → length steps + 1 < 2 ^ 64
    → AreShort steps
    → Ensures IsFront (run o (new channel_id resend_time max_send max_receive) steps)
unfolding new
run_delivers_in_order o channel_id resend_time max_send max_receive steps h n b =
    Ensures-map IsInOrder IsFront (run o (new channel_id resend_time max_send max_receive) steps)
      (run-IsInOrder o (new channel_id resend_time max_send max_receive) steps (omega arith) b
        (record {
          sender = new-IsChannel channel_id resend_time max_send 0 (omega arith);
          history = new-Holds channel_id resend_time max_send h;
          carried = tt;
          receiver = new-Follows [] max_receive;
        }))
      (λ w v. v.receiver.0.given)
