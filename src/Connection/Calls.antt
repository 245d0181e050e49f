-- ===== src/Connection/Calls.antt =====
-- The calls of the application and of the clock: `send_message`, `receive_message`, `update`, and
-- the questions about a send channel.
pub mod Clock
pub mod Messages
use renet.Base.{
  ℕ, ◌+◌, ◌-◌, ◌*◌, ◌^◌, Bool, true, false, List, [], ◌∷◌, Option, none, some, ltb, leb, get_elem?,
  if◌then◌else◌, Result, ok, err, panic, ◌>>=◌,
}
use renet.Channel.{Bytes, ChannelError}
use renet.Map.{remove}
use renet.Connection.{
  RenetClient, SendChannel, ReceiveChannel, PacketSent, send_channel_error, is_disconnected,
  disconnect_with_reason, with_send_channel, with_receive_channel,
}
use renet.ReceiveReliable
use renet.ReceiveUnreliable
use renet.SendReliable
use renet.SendReliable.{SendChannelReliable}
use renet.Stats
use renet.Unreliable

-- `Duration::from_secs(3)`
abbrev pub discard_after : ℕ
discard_after = 3_000_000_000

-- `Duration::MAX`, in nanoseconds.
abbrev pub max_duration : ℕ
max_duration = 2 ^ 64 * 1_000_000_000 - 1

-- The sequences up to the first packet that is not old enough.
unfoldable pub lost_packets : ℕ → List (ℕ × PacketSent) → Result ChannelError (List ℕ)
lost_packets current_time [] = ok []
lost_packets current_time ((sequence, sent) ∷ rest) =
    if ltb current_time sent.sent_at
    then panic
    else if leb discard_after (current_time - sent.sent_at)
    then (lost_packets current_time rest >>= λ lost. ok (sequence ∷ lost))
    else ok []

unfoldable pub remove_all : List ℕ → List (ℕ × PacketSent) → List (ℕ × PacketSent)
remove_all [] sent = sent
remove_all (sequence ∷ rest) sent = remove_all rest (remove sequence sent)

-- `discard_incomplete_old_slices` of each unreliable channel.
unfoldable pub discard_slices : ℕ → List ReceiveChannel → Result ChannelError (List ReceiveChannel)
discard_slices current_time [] = ok []
discard_slices current_time (ReceiveChannel.unreliable channel ∷ rest) =
    ReceiveUnreliable.discard_incomplete_old_slices channel current_time >>= λ d.
    discard_slices current_time rest >>= λ others. ok (ReceiveChannel.unreliable d ∷ others)
discard_slices current_time (ReceiveChannel.reliable channel ∷ rest) =
    discard_slices current_time rest >>= λ others. ok (ReceiveChannel.reliable channel ∷ others)
discard_slices current_time (ReceiveChannel.empty ∷ rest) =
    discard_slices current_time rest >>= λ others. ok (ReceiveChannel.empty ∷ others)

module _ {F : Type 0} where
  pub channel_available_memory : RenetClient F → ℕ → Result ChannelError ℕ
  channel_available_memory c id = elim (get_elem? c.send_channels id) [
    | some (SendChannel.reliable channel) ↦ ok (SendReliable.available_memory channel)
    | some (SendChannel.unreliable channel) ↦ ok (Unreliable.available_memory channel)
    | _ ↦ panic
  ]

  pub can_send_message : RenetClient F → ℕ → ℕ → Result ChannelError Bool
  can_send_message c id size_bytes = elim (get_elem? c.send_channels id) [
    | some (SendChannel.reliable channel) ↦ ok (SendReliable.can_send_message channel size_bytes)
    | some (SendChannel.unreliable channel) ↦ ok (Unreliable.can_send_message channel size_bytes)
    | _ ↦ panic
  ]

  abbrev pub with_queued :
      RenetClient F
      → ℕ
      → Result ChannelError SendChannelReliable
      → Result ChannelError (RenetClient F)
  with_queued c id (ok channel) = ok (with_send_channel c id (SendChannel.reliable channel))
  with_queued c id (err error) = ok (disconnect_with_reason c (send_channel_error id error))
  with_queued c id panic = panic

  unfoldable pub send_message : RenetClient F → ℕ → Bytes → Result ChannelError (RenetClient F)
  send_message c id message =
      if is_disconnected c then ok c else elim (get_elem? c.send_channels id) [
        | some (SendChannel.reliable channel) ↦
            with_queued c id (SendReliable.send_message channel message)
        | some (SendChannel.unreliable channel) ↦ ok (
            with_send_channel c id
              (SendChannel.unreliable (Unreliable.send_message channel message)))
        | _ ↦ panic
      ]

  unfoldable pub receive_message :
      RenetClient F → ℕ → Result ChannelError (RenetClient F × Option Bytes)
  receive_message c id =
      if is_disconnected c then ok (c, none) else elim (get_elem? c.receive_channels id) [
        | some (ReceiveChannel.reliable channel) ↦
            let r = ReceiveReliable.receive_message channel in
            ok (with_receive_channel c id (ReceiveChannel.reliable r.0), r.1)
        | some (ReceiveChannel.unreliable channel) ↦
            let r = ReceiveUnreliable.receive_message channel in
            ok (with_receive_channel c id (ReceiveChannel.unreliable r.0), r.1)
        | _ ↦ panic
      ]

  -- A sum of durations beyond `Duration::MAX` panics.
  unfoldable pub update : RenetClient F → ℕ → Result ChannelError (RenetClient F)
  update c duration =
      let now = c.current_time + duration in
      if ltb max_duration now
      then panic
      else (discard_slices now c.receive_channels >>= λ channels.
          lost_packets now c.sent_packets >>= λ lost. ok (record c {
            current_time = now;
            stats = Stats.update c.stats now;
            receive_channels = channels;
            sent_packets = remove_all lost c.sent_packets;
          }))
