-- ===== src/Delivery/Invariant.antt =====
-- What every step keeps, and the acknowledgements, which keep it.
use renet.Base.{
  ℕ, zero, suc, ◌<◌, ◌≤◌, ◌≡◌, refl, List, [], ◌∷◌, Bool, Option, none, some, length, get_elem?,
  arith,
}
use renet.Channel.{Bytes, Ensures, Ensures-map, Returns-Ensures, After-both}
use renet.Map.{lookup, Every-lookup}
use renet.Packet.{Packet}
use renet.Slice.{count_slices}
use renet.Slice.Received.{get_elem?-below}
use renet.ReceiveReliable.Order.{Follows}
use renet.SendReliable.{
  SendChannelReliable, UnackedMessage, SlicedMessage, small, sliced, process_message_ack,
  process_slice_message_ack,
}
use renet.SendReliable.Loop.{IsSliced, IsUnacked}
use renet.SendReliable.Memory.{IsChannel}
use renet.SendReliable.Acks.{
  process_message_ack-IsChannel, process_slice_message_ack-IsChannel, HasSlice, IsGivenUp,
  IsAcknowledged,
}
use renet.SendReliable.Packets.{Carries, AllCarry}
use renet.SendReliable.History.{
  Queued, Holds, process_message_ack-Holds, process_slice_message_ack-Holds,
}
use renet.Delivery.{
  World, Step, queues, waits, sends, arrives, acknowledges, acknowledges_slice, takes, acknowledge,
  acknowledge_slice,
}

-- Both ends are in order, the packets carry what was queued, and what was handed out is the front
-- of what was queued.
pub record IsInOrder (w : World) : Type 0 where
  pub sender : IsChannel w.current_time w.sender
  pub history : Holds w.queued w.sender
  pub carried : AllCarry (Queued w.queued) w.packets
  pub receiver : Follows w.queued w.delivered w.receiver

-- A queued message is at most 1,000,000 slices long.
abbrev pub IsShort : Step → Type 0
IsShort (queues m) = count_slices m ≤ 1_000_000
IsShort (waits time) = Unit {0}
IsShort (sends available_bytes) = Unit {0}
IsShort (arrives n) = Unit {0}
IsShort (acknowledges id) = Unit {0}
IsShort (acknowledges_slice id index) = Unit {0}
IsShort takes = Unit {0}

abbrev pub AreShort : List Step → Type 0
AreShort [] = Unit {0}
AreShort (s ∷ rest) = IsShort s × AreShort rest

pub AllCarry-get :
    (Q : ℕ → Bytes → Type 0) (ps : List Packet) (n : ℕ) (p : Packet)
    → AllCarry Q ps
    → get_elem? ps n ≡ some p
    → Carries Q p
AllCarry-get Q [] n p c e = cc
AllCarry-get Q (x ∷ ps) zero p c e = let same : p ≡ x = cc in rw same c.0
AllCarry-get Q (x ∷ ps) (suc n) p c e = AllCarry-get Q ps n p c.1 e

abbrev pub Sender : World → SendChannelReliable → Type 0
Sender w c = IsChannel w.current_time c × Holds w.queued c

pub with_sender :
    (w : World) (c : SendChannelReliable)
    → IsInOrder w
    → Sender w c
    → IsInOrder (record w { sender = c })
with_sender w c v s = record {
  sender = s.0;
  history = s.1;
  carried = v.carried;
  receiver = v.receiver;
}

pub acknowledge-Sender :
    (w : World) (id : ℕ) → IsInOrder w → Ensures (Sender w) (acknowledge w.sender id)
unfolding acknowledge
acknowledge-Sender w id v = go (lookup id w.sender.unacked_messages) refl
  where
    go :
        (found : Option UnackedMessage)
        → lookup id w.sender.unacked_messages ≡ found
        → Ensures (Sender w) (acknowledge w.sender id)
    go none e = rw (e, acknowledge) (v.sender, v.history)
    go (some (sliced s)) e = rw (e, acknowledge) (v.sender, v.history)
    go (some (small m t)) e =
        rw (e, acknowledge)
          (Ensures-map
            (λ c. (IsChannel w.current_time c × IsGivenUp id w.sender c) × Holds w.queued c)
            (Sender w) (process_message_ack w.sender id)
            (Returns-Ensures
              (λ c. (IsChannel w.current_time c × IsGivenUp id w.sender c) × Holds w.queued c)
              (process_message_ack w.sender id)
              (After-both (λ x. ⊥) (λ c. IsChannel w.current_time c × IsGivenUp id w.sender c)
                (Holds w.queued) (process_message_ack w.sender id)
                (process_message_ack-IsChannel w.current_time w.sender id (λ s q. cc) v.sender)
                (process_message_ack-Holds w.queued w.sender id m t e v.history)))
            (λ c k. (k.0.0, k.1)))

has_slice :
    (w : World) (id index : ℕ) (s : SlicedMessage) (b : Bool) (u : UnackedMessage)
    → IsInOrder w
    → lookup id w.sender.unacked_messages ≡ some (sliced s)
    → get_elem? s.acked index ≡ some b
    → lookup id w.sender.unacked_messages ≡ some u
    → HasSlice index u
has_slice w id index s b u v e f q =
    let same : u ≡ sliced s = cc in
    let valid : IsSliced w.current_time s =
      Every-lookup (λ k x. IsUnacked w.current_time x) id (sliced s) w.sender.unacked_messages
        v.sender.entries e in
    let below : index < length s.acked = get_elem?-below s.acked index b f in
    let inside : index < s.num_slices = omega (arith, valid.flags) in rw same inside

pub acknowledge_slice-Sender :
    (w : World) (id index : ℕ)
    → IsInOrder w
    → Ensures (Sender w) (acknowledge_slice w.sender id index)
unfolding acknowledge_slice
acknowledge_slice-Sender w id index v = go (lookup id w.sender.unacked_messages) refl
  where
    slice :
        (s : SlicedMessage) (b : Bool)
        → lookup id w.sender.unacked_messages ≡ some (sliced s)
        → get_elem? s.acked index ≡ some b
        → Ensures (Sender w) (process_slice_message_ack w.sender id index)
    slice s b e f =
        Ensures-map
          (λ c.
            (IsChannel w.current_time c × IsAcknowledged id index w.sender c) × Holds w.queued c)
          (Sender w) (process_slice_message_ack w.sender id index)
          (Returns-Ensures
            (λ c.
              (IsChannel w.current_time c × IsAcknowledged id index w.sender c) × Holds w.queued c)
            (process_slice_message_ack w.sender id index)
            (After-both (λ x. ⊥)
              (λ c. IsChannel w.current_time c × IsAcknowledged id index w.sender c)
              (Holds w.queued) (process_slice_message_ack w.sender id index)
              (process_slice_message_ack-IsChannel w.current_time w.sender id index
                (λ u q. has_slice w id index s b u v e f q) v.sender)
              (process_slice_message_ack-Holds w.queued w.sender id index s b e f v.history)))
          (λ c k. (k.0.0, k.1))

    flag :
        (s : SlicedMessage) (found : Option Bool)
        → lookup id w.sender.unacked_messages ≡ some (sliced s)
        → get_elem? s.acked index ≡ found
        → Ensures (Sender w) (acknowledge_slice w.sender id index)
    flag s none e f = rw (e, acknowledge_slice) (rw (f, acknowledge_slice) (v.sender, v.history))
    flag s (some b) e f = rw (e, acknowledge_slice) (rw (f, acknowledge_slice) (slice s b e f))

    go :
        (found : Option UnackedMessage)
        → lookup id w.sender.unacked_messages ≡ found
        → Ensures (Sender w) (acknowledge_slice w.sender id index)
    go none e = rw (e, acknowledge_slice) (v.sender, v.history)
    go (some (small m t)) e = rw (e, acknowledge_slice) (v.sender, v.history)
    go (some (sliced s)) e = flag s (get_elem? s.acked index) e refl
