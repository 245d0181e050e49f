-- ===== src/Server/Run.antt =====
-- The calls that the application and the transport make on a `RenetServer`.
use renet.Base.{ℕ, ◌≡◌, Bool, List, [], ◌∷◌, ◌++◌, Option, none, some, Result, ok, ◌>>=◌}
use renet.Channel.{Bytes, ChannelError}
use renet.Connection.{RenetClient}
use renet.Float.{Float}
use renet.Packet.{Octets}
use renet.Server
use renet.Server.{RenetServer, ServerEvent}
use renet.Server.Calls

pub data ServerCall (F : Type 0) : Type 0 where
  get_event disconnect_all : ServerCall F
  add_connection : ℕ → Bool → ServerCall F
  remove_connection disconnect update get_packets_to_send new_local_client : ℕ → ServerCall F
  broadcast_message : ℕ → Bytes → ServerCall F
  broadcast_message_except send_message : ℕ → ℕ → Bytes → ServerCall F
  receive_message : ℕ → ℕ → ServerCall F
  process_packet_from : Bytes → ℕ → ServerCall F
  disconnect_local_client process_local_client : ℕ → RenetClient F → ServerCall F

abbrev pub taken : Option ServerEvent → List ServerEvent
taken none = []
taken (some event) = event ∷ []

module _ {F : Type 0} (f : Float F) (o : Octets) (buffer : o.Buffer) where
  -- A call's server, with the event that it hands out.
  unfoldable pub call :
      RenetServer F → ServerCall F → Result ChannelError (RenetServer F × List ServerEvent)
  call s ServerCall.get_event = let r = Server.get_event s in ok (r.0, taken r.1)
  call s ServerCall.disconnect_all = ok (Server.disconnect_all s, [])
  call s (ServerCall.add_connection id socket_is_reliable) =
      Server.add_connection f s id socket_is_reliable >>= λ t. ok (t, [])
  call s (ServerCall.remove_connection id) = ok (Server.remove_connection s id, [])
  call s (ServerCall.disconnect id) = ok (Server.disconnect s id, [])
  call s (ServerCall.update duration) = Calls.update s duration >>= λ t. ok (t, [])
  call s (ServerCall.get_packets_to_send id) =
      Calls.get_packets_to_send o buffer s id >>= λ r. ok (r.0, [])
  call s (ServerCall.new_local_client id) = Calls.new_local_client f o s id >>= λ r. ok (r.0, [])
  call s (ServerCall.broadcast_message channel_id message) =
      Calls.broadcast_message s channel_id message >>= λ t. ok (t, [])
  call s (ServerCall.broadcast_message_except except_id channel_id message) =
      Calls.broadcast_message_except s except_id channel_id message >>= λ t. ok (t, [])
  call s (ServerCall.send_message id channel_id message) =
      Calls.send_message s id channel_id message >>= λ t. ok (t, [])
  call s (ServerCall.receive_message id channel_id) =
      Calls.receive_message s id channel_id >>= λ r. ok (r.0, [])
  call s (ServerCall.process_packet_from payload id) =
      Calls.process_packet_from f o s payload id >>= λ r. ok (r.0, [])
  call s (ServerCall.disconnect_local_client id client) =
      ok ((Calls.disconnect_local_client f o s id client).0, [])
  call s (ServerCall.process_local_client id client) =
      Calls.process_local_client f o buffer s id client >>= λ r. ok (r.0, [])

  -- The servers that calls lead to, with the events that were taken on the way.
  pub data Served : RenetServer F → List ServerEvent → Type 0 where
    started : (s : RenetServer F) → s.connections ≡ [] → s.events ≡ [] → Served s []
    called :
        (s t : RenetServer F) (x : ServerCall F) (before out : List ServerEvent)
        → Served s before
        → call s x ≡ ok (t, out)
        → Served t (before ++ out)
