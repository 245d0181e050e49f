-- ===== src/Server/Calls.antt =====
-- The calls of a server that go on to the client of a connection, or to the clients of all.
use renet.Base.{
  ℕ, Bool, true, false, List, [], ◌∷◌, Option, none, some, ◌==◌, if◌then◌else◌, Result, ok, ◌>>=◌,
}
use renet.Channel.{Bytes, ChannelError}
use renet.Connection
use renet.Connection.{RenetClient, disconnected_by_client, is_disconnected, set_connected}
use renet.Connection.Calls
use renet.Connection.Config.{new_from_server}
use renet.Connection.Incoming
use renet.Connection.Outgoing
use renet.Float.{Float}
use renet.Map.{lookup, insert, remove}
use renet.Packet.{Octets}
use renet.Server.{RenetServer, client_disconnected, push_back, add_connection}

module _ {F : Type 0} where
  -- A call on a connection that `connections.get_mut(&client_id)` found.
  unfoldable pub on_connection :
      {A : Type 0}
      → RenetServer F
      → ℕ
      → RenetClient F
      → Result ChannelError (RenetClient F × A)
      → Result ChannelError (RenetServer F × A)
  on_connection s client_id connection r =
      r >>= λ x. ok (record s { connections = insert client_id x.0 s.connections }, x.1)

  -- `for connection in self.connections.values_mut()`
  unfoldable pub for_each :
      (ℕ → RenetClient F → Result ChannelError (RenetClient F))
      → List (ℕ × RenetClient F)
      → Result ChannelError (List (ℕ × RenetClient F))
  for_each call [] = ok []
  for_each call ((client_id, connection) ∷ rest) = call client_id connection >>= λ d.
      for_each call rest >>= λ others. ok ((client_id, d) ∷ others)

  unfoldable pub on_all :
      RenetServer F
      → (ℕ → RenetClient F → Result ChannelError (RenetClient F))
      → Result ChannelError (RenetServer F)
  on_all s call =
      for_each call s.connections >>= λ connections. ok (record s { connections = connections })

  unfoldable pub broadcast_message : RenetServer F → ℕ → Bytes → Result ChannelError (RenetServer F)
  broadcast_message s channel_id message =
      on_all s (λ id c. Calls.send_message c channel_id message)

  unfoldable pub broadcast_message_except :
      RenetServer F → ℕ → ℕ → Bytes → Result ChannelError (RenetServer F)
  broadcast_message_except s except_id channel_id message =
      on_all s (λ id c. if except_id == id then ok c else Calls.send_message c channel_id message)

  unfoldable pub update : RenetServer F → ℕ → Result ChannelError (RenetServer F)
  update s duration = on_all s (λ id c. Calls.update c duration)

  unfoldable pub channel_available_memory : RenetServer F → ℕ → ℕ → Result ChannelError ℕ
  channel_available_memory s client_id channel_id = elim (lookup client_id s.connections) [
    | some connection ↦ Calls.channel_available_memory connection channel_id
    | none ↦ ok 0
  ]

  unfoldable pub can_send_message : RenetServer F → ℕ → ℕ → ℕ → Result ChannelError Bool
  can_send_message s client_id channel_id size_bytes = elim (lookup client_id s.connections) [
    | some connection ↦ Calls.can_send_message connection channel_id size_bytes
    | none ↦ ok false
  ]

  -- A client that is not there is logged.
  unfoldable pub send_message : RenetServer F → ℕ → ℕ → Bytes → Result ChannelError (RenetServer F)
  send_message s client_id channel_id message = elim (lookup client_id s.connections) [
    | some connection ↦
        on_connection s client_id connection
          (Calls.send_message connection channel_id message >>= λ d. ok (d, tt))
        >>= λ x. ok x.0
    | none ↦ ok s
  ]

  unfoldable pub receive_message :
      RenetServer F → ℕ → ℕ → Result ChannelError (RenetServer F × Option Bytes)
  receive_message s client_id channel_id = elim (lookup client_id s.connections) [
    | some connection ↦
        on_connection s client_id connection (Calls.receive_message connection channel_id)
    | none ↦ ok (s, none)
  ]

  -- `Err(ClientNotFound)` is none.
  module _ (o : Octets) (buffer : o.Buffer) where
    unfoldable pub get_packets_to_send :
        RenetServer F → ℕ → Result ChannelError (RenetServer F × Option (List Bytes))
    get_packets_to_send s client_id = elim (lookup client_id s.connections) [
      | some connection ↦
          on_connection s client_id connection (Outgoing.get_packets_to_send o buffer connection)
          >>= λ x. ok (x.0, some x.1)
      | none ↦ ok (s, none)
    ]

  module _ (f : Float F) (o : Octets) where
    -- The second component tells whether the client was found.
    unfoldable pub process_packet_from :
        RenetServer F → Bytes → ℕ → Result ChannelError (RenetServer F × Bool)
    process_packet_from s payload client_id = elim (lookup client_id s.connections) [
      | some connection ↦
          on_connection s client_id connection
            (Incoming.process_packet f o connection payload >>= λ d. ok (d, true))
      | none ↦ ok (s, false)
    ]

    unfoldable pub new_local_client :
        RenetServer F → ℕ → Result ChannelError (RenetServer F × RenetClient F)
    new_local_client s client_id = new_from_server f s.connection_config false >>= λ client.
        add_connection f s client_id false >>= λ t. ok (t, set_connected client)

    unfoldable pub disconnect_local_client :
        RenetServer F → ℕ → RenetClient F → RenetServer F × RenetClient F
    disconnect_local_client s client_id client = if is_disconnected client then (s, client) else (
      elim (lookup client_id s.connections) [
        | some connection ↦
            push_back (record s { connections = remove client_id s.connections })
              (client_disconnected client_id disconnected_by_client)
        | none ↦ s
      ],
      Connection.disconnect client,
    )

    -- `for packet in packets { client.process_packet(&packet) }`
    unfoldable pub process_packets :
        RenetClient F → List Bytes → Result ChannelError (RenetClient F)
    process_packets client [] = ok client
    process_packets client (packet ∷ rest) =
        Incoming.process_packet f o client packet >>= λ d. process_packets d rest

    -- Up to the first packet for which the client is not found.
    unfoldable pub process_packets_from :
        RenetServer F → List Bytes → ℕ → Result ChannelError (RenetServer F × Bool)
    process_packets_from s [] client_id = ok (s, true)
    process_packets_from s (packet ∷ rest) client_id =
        process_packet_from s packet client_id >>= λ x. elim x.1 [
          | true ↦ process_packets_from x.0 rest client_id
          | false ↦ ok (x.0, false)
        ]

    -- What `process_local_client` does with the packets of the connection, if there are some.
    unfoldable pub exchange :
        o.Buffer
        → RenetServer F
        → ℕ
        → RenetClient F
        → Option (List Bytes)
        → Result ChannelError (RenetServer F × RenetClient F × Bool)
    exchange buffer s client_id client none = ok (s, client, false)
    exchange buffer s client_id client (some packets) = process_packets client packets >>= λ d.
        Outgoing.get_packets_to_send o buffer d >>= λ answer.
        process_packets_from s answer.1 client_id >>= λ x. ok (x.0, answer.0, x.1)

    unfoldable pub process_local_client :
        o.Buffer
        → RenetServer F
        → ℕ
        → RenetClient F
        → Result ChannelError (RenetServer F × RenetClient F × Bool)
    process_local_client buffer s client_id client =
        get_packets_to_send o buffer s client_id >>= λ sent.
        exchange buffer sent.0 client_id client sent.1
