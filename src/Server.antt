-- ===== src/Server.antt =====
-- renet2/src/server.rs: `RenetServer`, a client for each connection and the queue of its events.
-- The map of the connections is a HashMap: the calls go through it in an order that the program
-- does not fix, here that of the ids, and no connection's result depends on another's.
pub mod Calls
pub mod Each
pub mod Events
pub mod Run
pub mod Told
mod Runs
use renet.Base.{
  ℕ, length, Bool, true, false, not, List, [], ◌∷◌, ◌++◌, Option, none, some, ◌==◌, if◌then◌else◌,
  Result, ok, err, panic, ◌>>=◌,
}
use renet.Channel.{Bytes, ChannelError}
use renet.Connection
use renet.Connection.{
  RenetClient, DisconnectReason, disconnected_by_server, transport, is_connected, is_disconnected,
}
use renet.Connection.Config.{ConnectionConfig, new_from_server}
use renet.Connection.Info
use renet.Connection.Info.{NetworkInfo}
use renet.Float.{Float}
use renet.Map.{lookup, insert, remove}

pub data ServerEvent : Type 0 where
  client_connected : ℕ → ServerEvent
  client_disconnected : ℕ → DisconnectReason → ServerEvent

pub record RenetServer (F : Type 0) : Type 0 where
  pub connections : List (ℕ × RenetClient F)
  pub connection_config : ConnectionConfig
  pub events : List ServerEvent

-- `unwrap_or`
abbrev pub reason_or : DisconnectReason → Option DisconnectReason → DisconnectReason
reason_or reason none = reason
reason_or reason (some other) = other

abbrev pub same : Bool → Bool → Bool
same true b = b
same false b = not b

module _ {F : Type 0} where
  abbrev pub new : ConnectionConfig → RenetServer F
  new config = record { connections = []; connection_config = config; events = [] }

  abbrev pub push_back : RenetServer F → ServerEvent → RenetServer F
  push_back s event = record s { events = s.events ++ event ∷ [] }

  unfoldable pub get_event : RenetServer F → RenetServer F × Option ServerEvent
  get_event s = elim s.events [
    | [] ↦ (s, none)
    | event ∷ rest ↦ (record s { events = rest }, some event)
  ]

  unfoldable pub has_connections : RenetServer F → Bool
  has_connections s = elim s.connections [ [] ↦ false | _ ∷ _ ↦ true ]

  abbrev pub disconnect_reason : RenetServer F → ℕ → Option DisconnectReason
  disconnect_reason s client_id = elim (lookup client_id s.connections) [
    | some connection ↦ Connection.disconnect_reason connection
    | none ↦ none
  ]

  unfoldable pub remove_connection : RenetServer F → ℕ → RenetServer F
  remove_connection s client_id = elim (lookup client_id s.connections) [
    | some connection ↦
        push_back (record s { connections = remove client_id s.connections })
          (client_disconnected client_id
            (reason_or transport (Connection.disconnect_reason connection)))
    | none ↦ s
  ]

  unfoldable pub disconnect : RenetServer F → ℕ → RenetServer F
  disconnect s client_id = elim (lookup client_id s.connections) [
    | some connection ↦ record s {
      connections =
          insert client_id (Connection.disconnect_with_reason connection disconnected_by_server)
            s.connections;
    }
    | none ↦ s
  ]

  unfoldable pub disconnect_each : List (ℕ × RenetClient F) → List (ℕ × RenetClient F)
  disconnect_each [] = []
  disconnect_each ((client_id, connection) ∷ rest) =
      (client_id, Connection.disconnect_with_reason connection disconnected_by_server)
      ∷ disconnect_each rest

  unfoldable pub disconnect_all : RenetServer F → RenetServer F
  disconnect_all s = record s { connections = disconnect_each s.connections }

  unfoldable pub is_client_connected : RenetServer F → ℕ → Bool
  is_client_connected s client_id = elim (lookup client_id s.connections) [
    | some connection ↦ is_connected connection
    | none ↦ false
  ]

  -- The ids of the connections that pass a test.
  unfoldable pub ids_where : (RenetClient F → Bool) → List (ℕ × RenetClient F) → List ℕ
  ids_where test [] = []
  ids_where test ((client_id, connection) ∷ rest) =
      let others = ids_where test rest in if test connection then client_id ∷ others else others

  unfoldable pub clients_id : RenetServer F → List ℕ
  clients_id s = ids_where is_connected s.connections

  unfoldable pub disconnections_id : RenetServer F → List ℕ
  disconnections_id s = ids_where is_disconnected s.connections

  unfoldable pub connected_clients : RenetServer F → ℕ
  connected_clients s = length (ids_where is_connected s.connections)

  module _ (f : Float F) where
    -- The client that `add_connection` makes.
    unfoldable pub make_connection : RenetServer F → ℕ → Bool → Result ChannelError (RenetServer F)
    make_connection s client_id socket_is_reliable =
        new_from_server f s.connection_config socket_is_reliable >>= λ client. ok (
          push_back
            (record s {
              connections = insert client_id (Connection.set_connected client) s.connections;
            })
            (client_connected client_id))

    unfoldable pub add_connection : RenetServer F → ℕ → Bool → Result ChannelError (RenetServer F)
    add_connection s client_id socket_is_reliable = elim (lookup client_id s.connections) [
      | some client ↦
          if same client.has_reliable_socket socket_is_reliable
          then ok s
          else make_connection s client_id socket_is_reliable
      | none ↦ make_connection s client_id socket_is_reliable
    ]

    unfoldable pub rtt : RenetServer F → ℕ → F
    rtt s client_id = elim (lookup client_id s.connections) [
      | some connection ↦ connection.rtt
      | none ↦ f.zero
    ]

    unfoldable pub packet_loss : RenetServer F → ℕ → F
    packet_loss s client_id = elim (lookup client_id s.connections) [
      | some connection ↦ Info.packet_loss f connection
      | none ↦ f.zero
    ]

    unfoldable pub bytes_sent_per_sec : RenetServer F → ℕ → F
    bytes_sent_per_sec s client_id = elim (lookup client_id s.connections) [
      | some connection ↦ Info.bytes_sent_per_sec f connection
      | none ↦ f.zero
    ]

    unfoldable pub bytes_received_per_sec : RenetServer F → ℕ → F
    bytes_received_per_sec s client_id = elim (lookup client_id s.connections) [
      | some connection ↦ Info.bytes_received_per_sec f connection
      | none ↦ f.zero
    ]

    -- `Err(ClientNotFound)` is none.
    unfoldable pub network_info : RenetServer F → ℕ → Option (NetworkInfo F)
    network_info s client_id = elim (lookup client_id s.connections) [
      | some connection ↦ some (Info.network_info f connection)
      | none ↦ none
    ]
