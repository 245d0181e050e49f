-- ===== src/Server/Told.antt =====
-- The events against the connections: who listens to the events knows who is connected.
use mathlib.Core.List.{append_assoc}
use renet.Base.{
  ℕ, ◌≡◌, refl, sym, ap, ◌∙◌, Bool, true, false, List, [], ◌∷◌, ◌++◌, ◌==◌, if◌then◌else◌, Option,
  none, some, Result, ok, ◌>>=◌,
}
use renet.Channel.{Bytes, ChannelError, OnReturn, OnReturn-then, OnReturn-bind}
use renet.Connection.Calls as ClientCalls
use renet.Connection.Config.{new_from_server}
use renet.Connection.{RenetClient}
use renet.Float.{Float}
use renet.Map.{lookup}
use renet.Packet.{Octets}
use renet.Server
use renet.Server.{
  RenetServer, ServerEvent, client_connected, client_disconnected, get_event, add_connection,
}
use renet.Server.Calls
use renet.Server.Calls.{on_connection, send_message, receive_message}
use renet.Server.Events.{
  hear, replay, replay-append, append_nil, has, Emits, Keeps, Keeps-Emits, Keeps-refl,
  on_connection-Keeps, on_all-Keeps, add_connection-Emits, remove_connection-Emits,
  disconnect-Keeps, disconnect_all-Keeps, get_packets_to_send-Keeps, process_packet_from-Keeps,
  disconnect_local_client-Emits, process_local_client-Keeps,
}
use renet.Server.Run.{ServerCall, call, taken, Served, called}

abbrev pub nobody : ℕ → Bool
nobody id = false

replay-cong :
    (known knows : ℕ → Bool) (es : List ServerEvent)
    → ((id : ℕ) → known id ≡ knows id)
    → (id : ℕ) → replay known es id ≡ replay knows es id
replay-cong known knows [] h = h
replay-cong known knows (client_connected k ∷ es) h =
    replay-cong (hear known (client_connected k)) (hear knows (client_connected k)) es
      (λ j. ap (λ b. if j == k then true else b) (h j))
replay-cong known knows (client_disconnected k reason ∷ es) h =
    replay-cong (hear known (client_disconnected k reason))
      (hear knows (client_disconnected k reason)) es
      (λ j. ap (λ b. if j == k then false else b) (h j))

module _ {F : Type 0} where
  -- The events that were taken, and those that wait, tell of the connections.
  abbrev Tells : RenetServer F → List ServerEvent → Type 0
  Tells s before = (id : ℕ) → replay nobody (before ++ s.events) id ≡ has s id

  Tells-Emits :
      (s t : RenetServer F) (before : List ServerEvent)
      → Emits s t
      → Tells s before
      → Tells t (before ++ [])
  Tells-Emits s t before (new, e, h) told id =
      ap (λ b. replay nobody (b ++ t.events) id) (append_nil before)
      ∙ (ap (λ es. replay nobody (before ++ es) id) e
          ∙ (ap (λ es. replay nobody es id) (sym (append_assoc before s.events new))
              ∙ (ap (λ k. k id) (replay-append nobody (before ++ s.events) new)
                  ∙ (replay-cong (replay nobody (before ++ s.events)) (has s) new told id
                      ∙ sym (h id)))))

  Tells-get_event :
      (s : RenetServer F) (before : List ServerEvent)
      → Tells s before
      → Tells (get_event s).0 (before ++ taken (get_event s).1)
  unfolding get_event
  Tells-get_event s before told = go s.events refl
    where
      go :
          (es : List ServerEvent)
          → s.events ≡ es
          → Tells (get_event s).0 (before ++ taken (get_event s).1)
      go [] e = rw (e, get_event) (Tells-Emits s s before (Keeps-Emits s s (Keeps-refl s)) told)
      go (x ∷ es) e =
          rw (e, get_event)
            (λ id.
              ap (λ fs. replay nobody fs id) (append_assoc before (x ∷ []) es)
              ∙ (ap (λ fs. replay nobody (before ++ fs) id) (sym e) ∙ told id))

  -- What a call does to the connections, with the events that it hands out.
  abbrev Goes : RenetServer F → List ServerEvent → RenetServer F × List ServerEvent → Type 0
  Goes s before r = Tells r.0 (before ++ r.1)

  module _ (s : RenetServer F) (before : List ServerEvent) (told : Tells s before) where
    announced :
        (r : Result ChannelError (RenetServer F))
        → OnReturn (Emits s) r
        → OnReturn (Goes s before) (r >>= λ t. ok (t, []))
    announced r h =
        OnReturn-bind (Emits s) (Goes s before) r _ h (λ t e. Tells-Emits s t before e told)

    unchanged :
        (r : Result ChannelError (RenetServer F))
        → OnReturn (Keeps s) r
        → OnReturn (Goes s before) (r >>= λ t. ok (t, []))
    unchanged r h =
        OnReturn-bind (Keeps s) (Goes s before) r _ h
          (λ t k. Tells-Emits s t before (Keeps-Emits s t k) told)

    unchanged_with :
        {A : Type 0} (r : Result ChannelError (RenetServer F × A))
        → OnReturn (λ x. Keeps s x.0) r
        → OnReturn (Goes s before) (r >>= λ x. ok (x.0, []))
    unchanged_with r h =
        OnReturn-bind (λ x. Keeps s x.0) (Goes s before) r _ h
          (λ x k. Tells-Emits s x.0 before (Keeps-Emits s x.0 k) told)

  send_message-Keeps :
      (s : RenetServer F) (id channel_id : ℕ) (m : Bytes)
      → OnReturn (Keeps s) (send_message s id channel_id m)
  unfolding send_message
  send_message-Keeps s id channel_id m = go (lookup id s.connections) refl
    where
      go :
          (found : Option (RenetClient F))
          → lookup id s.connections ≡ found
          → OnReturn (Keeps s) (send_message s id channel_id m)
      go none e = rw (e, send_message) (Keeps-refl s)
      go (some c) e =
          rw (e, send_message)
            (OnReturn-bind (λ x. Keeps s x.0) (Keeps s)
              (on_connection s id c (ClientCalls.send_message c channel_id m >>= λ d. ok (d, tt))) _
              (on_connection-Keeps s id c
                (ClientCalls.send_message c channel_id m >>= λ d. ok (d, tt)) e)
              (λ x k. k))

  receive_message-Keeps :
      (s : RenetServer F) (id channel_id : ℕ)
      → OnReturn (λ x. Keeps s x.0) (receive_message s id channel_id)
  unfolding receive_message
  receive_message-Keeps s id channel_id = go (lookup id s.connections) refl
    where
      go :
          (found : Option (RenetClient F))
          → lookup id s.connections ≡ found
          → OnReturn (λ x. Keeps s x.0) (receive_message s id channel_id)
      go none e = rw (e, receive_message) (Keeps-refl s)
      go (some c) e =
          rw (e, receive_message)
            (on_connection-Keeps s id c (ClientCalls.receive_message c channel_id) e)

module _ {F : Type 0} (f : Float F) (o : Octets) (buffer : o.Buffer) where
  new_local_client-Tells :
      (s : RenetServer F) (before : List ServerEvent) (id : ℕ)
      → Tells s before
      → OnReturn (Goes s before) (Calls.new_local_client f o s id >>= λ r. ok (r.0, []))
  unfolding Calls.new_local_client
  new_local_client-Tells s before id told =
      OnReturn-bind (λ x. Emits s x.0) (Goes s before) (Calls.new_local_client f o s id) _
        (OnReturn-then (λ x. Emits s x.0) (new_from_server f s.connection_config false) _
          (λ client.
            OnReturn-bind (Emits s) (λ x. Emits s x.0) (add_connection f s id false) _
              (add_connection-Emits f s id false) (λ t e. e)))
        (λ x e. Tells-Emits s x.0 before e told)

  call-Tells :
      (s : RenetServer F) (x : ServerCall F) (before : List ServerEvent)
      → Tells s before
      → OnReturn (Goes s before) (call f o buffer s x)
  unfolding call Calls.broadcast_message Calls.broadcast_message_except Calls.update
  call-Tells s ServerCall.get_event before told = Tells-get_event s before told
  call-Tells s ServerCall.disconnect_all before told =
      Tells-Emits s (Server.disconnect_all s) before
        (Keeps-Emits s (Server.disconnect_all s) (disconnect_all-Keeps s)) told
  call-Tells s (ServerCall.add_connection id reliable) before told =
      announced s before told (add_connection f s id reliable)
        (add_connection-Emits f s id reliable)
  call-Tells s (ServerCall.remove_connection id) before told =
      Tells-Emits s (Server.remove_connection s id) before (remove_connection-Emits s id) told
  call-Tells s (ServerCall.disconnect id) before told =
      Tells-Emits s (Server.disconnect s id) before
        (Keeps-Emits s (Server.disconnect s id) (disconnect-Keeps s id)) told
  call-Tells s (ServerCall.update duration) before told =
      unchanged s before told (Calls.update s duration) (on_all-Keeps s _)
  call-Tells s (ServerCall.get_packets_to_send id) before told =
      unchanged_with s before told (Calls.get_packets_to_send o buffer s id)
        (get_packets_to_send-Keeps o buffer s id)
  call-Tells s (ServerCall.new_local_client id) before told =
      new_local_client-Tells s before id told
  call-Tells s (ServerCall.broadcast_message channel_id message) before told =
      unchanged s before told (Calls.broadcast_message s channel_id message) (on_all-Keeps s _)
  call-Tells s (ServerCall.broadcast_message_except except_id channel_id message) before told =
      unchanged s before told (Calls.broadcast_message_except s except_id channel_id message)
        (on_all-Keeps s _)
  call-Tells s (ServerCall.send_message id channel_id message) before told =
      unchanged s before told (send_message s id channel_id message)
        (send_message-Keeps s id channel_id message)
  call-Tells s (ServerCall.receive_message id channel_id) before told =
      unchanged_with s before told (receive_message s id channel_id)
        (receive_message-Keeps s id channel_id)
  call-Tells s (ServerCall.process_packet_from payload id) before told =
      unchanged_with s before told (Calls.process_packet_from f o s payload id)
        (process_packet_from-Keeps f o s payload id)
  call-Tells s (ServerCall.disconnect_local_client id client) before told =
      Tells-Emits s (Calls.disconnect_local_client f o s id client).0 before
        (disconnect_local_client-Emits f o s id client) told
  call-Tells s (ServerCall.process_local_client id client) before told =
      OnReturn-bind (λ x. Keeps s x.0) (Goes s before)
        (Calls.process_local_client f o buffer s id client) _
        (process_local_client-Keeps f o buffer s id client)
        (λ x k. Tells-Emits s x.0 before (Keeps-Emits s x.0 k) told)

  Served-Tells :
      (s : RenetServer F) (before : List ServerEvent) → Served f o buffer s before → Tells s before
  unfolding lookup
  Served-Tells s before (Served.started t none_connected no_events) id =
      rw (none_connected, no_events) refl
  Served-Tells s before (called t u x past out v e) id =
      (rw e at (call-Tells t x past (λ j. Served-Tells t past v j))) id

  -- Whatever calls were made on a server that started with no connection and no event: the events
  -- that were taken from it, followed by those that still wait, tell for each client id whether a
  -- connection is there.
  pub events_tell_connections :
      (s : RenetServer F) (before : List ServerEvent) (id : ℕ)
      → Served f o buffer s before
      → replay nobody (before ++ s.events) id ≡ has s id
  events_tell_connections s before id v = Served-Tells s before v id
