-- ===== src/SendReliable/Identity.antt =====
-- No call changes a channel's id.
use renet.Base.{
  ℕ, ◌≡◌, refl, List, Bool, true, false, Option, none, some, get_elem?, arith, Result, ok, err,
  panic, ◌>>=◌,
}
use renet.Channel.{Bytes, ChannelError, OnReturn}
use renet.Map.{lookup}
use renet.Packet.{Octets}
use renet.SendReliable.{
  SendChannelReliable, Sending, UnackedMessage, SlicedMessage, small, sliced, send_message,
  process_message_ack, ack_small, process_slice_message_ack, ack_slice, count_ack, send_rounds,
  start, finish, get_packets_to_send,
}

pub send_message-channel_id :
    (c : SendChannelReliable) (m : Bytes)
    → OnReturn (λ d. d.channel_id ≡ c.channel_id) (send_message c m)
unfolding send_message
send_message-channel_id c m = ground arith

pub process_message_ack-channel_id :
    (c : SendChannelReliable) (id : ℕ)
    → OnReturn (λ d. d.channel_id ≡ c.channel_id) (process_message_ack c id)
unfolding process_message_ack ack_small
process_message_ack-channel_id c id = go (lookup id c.unacked_messages) refl
  where
    go :
        (found : Option UnackedMessage)
        → lookup id c.unacked_messages ≡ found
        → OnReturn (λ d. d.channel_id ≡ c.channel_id) (process_message_ack c id)
    go none e = rw (e, process_message_ack) refl
    go (some (small m t)) e = rw (e, process_message_ack) refl
    go (some (sliced s)) e = rw (e, process_message_ack) tt

count_ack-channel_id :
    (c : SendChannelReliable) (id : ℕ) (s : SlicedMessage)
    → (count_ack c id s).channel_id ≡ c.channel_id
unfolding count_ack
count_ack-channel_id c id s = ground arith

pub process_slice_message_ack-channel_id :
    (c : SendChannelReliable) (id i : ℕ)
    → OnReturn (λ d. d.channel_id ≡ c.channel_id) (process_slice_message_ack c id i)
unfolding process_slice_message_ack ack_slice
process_slice_message_ack-channel_id c id i = go (lookup id c.unacked_messages) refl
  where
    flag :
        (s : SlicedMessage) (found : Option Bool)
        → get_elem? s.acked i ≡ found
        → OnReturn (λ d. d.channel_id ≡ c.channel_id) (ack_slice c id i (sliced s))
    flag s none e = rw (e, ack_slice) tt
    flag s (some true) e = rw (e, ack_slice) refl
    flag s (some false) e = rw (e, ack_slice) (count_ack-channel_id c id _)

    go :
        (found : Option UnackedMessage)
        → lookup id c.unacked_messages ≡ found
        → OnReturn (λ d. d.channel_id ≡ c.channel_id) (process_slice_message_ack c id i)
    go none e = rw (e, process_slice_message_ack) refl
    go (some (small m t)) e = rw (e, process_slice_message_ack) tt
    go (some (sliced s)) e = rw (e, process_slice_message_ack) (flag s (get_elem? s.acked i) refl)

pub get_packets_to_send-channel_id :
    (o : Octets) (c : SendChannelReliable) (packet_sequence available_bytes now : ℕ)
    → OnReturn
        (λ sent. sent.channel.channel_id ≡ c.channel_id)
        (get_packets_to_send o c packet_sequence available_bytes now)
unfolding get_packets_to_send finish
get_packets_to_send-channel_id o c s a now = go (send_rounds o c now c.unacked_messages (start s a))
  where
    go :
        (r : Result ChannelError (Sending × List (ℕ × UnackedMessage)))
        → OnReturn (λ sent. sent.channel.channel_id ≡ c.channel_id) (r >>= λ x. ok (finish c x))
    go (ok (l, n)) = refl
    go (err e) = tt
    go panic = tt
