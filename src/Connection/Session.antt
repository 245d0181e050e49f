-- ===== src/Connection/Session.antt =====
-- The calls that the application and the transport make on a `RenetClient`, one after the other.
pub mod Final
pub mod Reachable
use renet.Base.{ℕ, Bool, List, [], ◌∷◌, ◌++◌, Option, none, some, Result, ok, err, panic, ◌>>=◌}
use renet.Channel.{Bytes, ChannelError}
use renet.Connection
use renet.Connection.{RenetClient, DisconnectReason}
use renet.Connection.Calls
use renet.Connection.Incoming
use renet.Connection.Outgoing
use renet.Float.{Float}
use renet.Packet.{Octets}

pub data Call : Type 0 where
  set_connected set_connecting disconnect disconnect_due_to_transport get_packets_to_send : Call
  disconnect_with_reason : DisconnectReason → Call
  send_message : ℕ → Bytes → Call
  receive_message update : ℕ → Call
  process_packet : Bytes → Call

-- The message that `receive_message` hands out, if there is one.
abbrev pub given : Option Bytes → List Bytes
given none = []
given (some message) = message ∷ []

module _ {F : Type 0} (f : Float F) (o : Octets) (buffer : o.Buffer) where
  -- A call's client, with the messages or the packets that it hands out.
  unfoldable pub call : RenetClient F → Call → Result ChannelError (RenetClient F × List Bytes)
  call c Call.set_connected = ok (Connection.set_connected c, [])
  call c Call.set_connecting = ok (Connection.set_connecting c, [])
  call c Call.disconnect = ok (Connection.disconnect c, [])
  call c Call.disconnect_due_to_transport = ok (Connection.disconnect_due_to_transport c, [])
  call c (Call.disconnect_with_reason reason) = ok (Connection.disconnect_with_reason c reason, [])
  call c Call.get_packets_to_send = Outgoing.get_packets_to_send o buffer c
  call c (Call.send_message id message) = Calls.send_message c id message >>= λ d. ok (d, [])
  call c (Call.receive_message id) = Calls.receive_message c id >>= λ r. ok (r.0, given r.1)
  call c (Call.update duration) = Calls.update c duration >>= λ d. ok (d, [])
  call c (Call.process_packet packet) = Incoming.process_packet f o c packet >>= λ d. ok (d, [])

  -- The calls in turn, with all that they hand out.
  unfoldable pub run : RenetClient F → List Call → Result ChannelError (RenetClient F × List Bytes)
  run c [] = ok (c, [])
  run c (x ∷ rest) = call c x >>= λ r. run r.0 rest >>= λ others. ok (others.0, r.1 ++ others.1)
