-- ===== src/Server/Events.antt =====
-- What a call does to the set of the connections, and to the queue of the events.
use renet.Base.{
  ℕ, ◌≡◌, refl, sym, ap, ◌∙◌, Bool, true, false, Bool-cases, inl, inr, List, [], ◌∷◌, ◌++◌, Option,
  none, some, ◌==◌, if◌then◌else◌, Result, ok, err, panic, ◌>>=◌, arith,
}
use renet.Channel.{Bytes, ChannelError, OnReturn, OnReturn-then, OnReturn-bind}
use renet.Connection
use renet.Connection.{
  RenetClient, disconnected_by_server, disconnected_by_client, transport, is_disconnected,
}
use renet.Connection.Config.{new_from_server}
use renet.Connection.Incoming
use renet.Connection.Outgoing
use renet.Float.{Float}
use renet.Map.{lookup, insert, remove, lookup-insert, lookup-remove}
use renet.Packet.{Octets}
use renet.Server.{
  RenetServer, ServerEvent, client_connected, client_disconnected, push_back, reason_or,
  remove_connection, disconnect, disconnect_each, disconnect_all, make_connection, add_connection,
  same,
}
use renet.Server.Calls.{
  on_connection, for_each, on_all, process_packet_from, process_packets, process_packets_from,
  exchange, get_packets_to_send, disconnect_local_client, process_local_client,
}

-- What a listener knows of a client after an event.
abbrev pub hear : (ℕ → Bool) → ServerEvent → ℕ → Bool
hear known (client_connected id) j = if j == id then true else known j
hear known (client_disconnected id reason) j = if j == id then false else known j

abbrev pub replay : (ℕ → Bool) → List ServerEvent → ℕ → Bool
replay known [] = known
replay known (e ∷ es) = replay (hear known e) es

pub replay-append :
    (known : ℕ → Bool) (es fs : List ServerEvent)
    → replay known (es ++ fs) ≡ replay (replay known es) fs
replay-append known [] fs = refl
replay-append known (e ∷ es) fs = replay-append (hear known e) es fs

abbrev pub is_some {ℓ} : {A : Type ℓ} → Option A → Bool
is_some none = false
is_some (some a) = true

pub append_nil : {A : Type 0} (xs : List A) → xs ++ [] ≡ xs
append_nil [] = refl
append_nil (x ∷ xs) = ap (λ ys. x ∷ ys) (append_nil xs)

module _ {F : Type 0} where
  -- A connection is there for the id.
  abbrev pub has : RenetServer F → ℕ → Bool
  has s id = is_some (lookup id s.connections)

  -- The new events tell how the set of the connections has changed.
  abbrev pub Emits : RenetServer F → RenetServer F → Type 0
  Emits s t =
      (new : List ServerEvent) × (t.events ≡ s.events ++ new)
      × ((id : ℕ) → has t id ≡ replay (has s) new id)

  -- No event, and the same connections.
  abbrev pub Keeps : RenetServer F → RenetServer F → Type 0
  Keeps s t = (t.events ≡ s.events) × ((id : ℕ) → has t id ≡ has s id)

  pub Keeps-refl : (s : RenetServer F) → Keeps s s
  Keeps-refl s = (refl, λ id. refl)

  pub Keeps-trans : (s t u : RenetServer F) → Keeps s t → Keeps t u → Keeps s u
  Keeps-trans s t u h k = (k.0 ∙ h.0, λ id. k.1 id ∙ h.1 id)

  pub Keeps-Emits : (s t : RenetServer F) → Keeps s t → Emits s t
  Keeps-Emits s t k = ([], k.0 ∙ sym (append_nil s.events), k.1)

  -- A connection that is there is replaced.
  pub insert-Keeps :
      (s : RenetServer F) (id : ℕ) (c d : RenetClient F)
      → lookup id s.connections ≡ some c
      → Keeps s (record s { connections = insert id d s.connections })
  insert-Keeps s id c d q = (
    refl,
    λ j. elim (Bool-cases (j == id)) [
      | inl e ↦
          let same : j ≡ id = ground arith in
          rw (lookup-insert id j d s.connections, e) (rw (same, q) refl)
      | inr e ↦ rw (lookup-insert id j d s.connections, e) refl
    ],
  )

  pub on_connection-Keeps :
      {A : Type 0} (s : RenetServer F) (id : ℕ) (c : RenetClient F)
      (r : Result ChannelError (RenetClient F × A))
      → lookup id s.connections ≡ some c
      → OnReturn (λ x. Keeps s x.0) (on_connection s id c r)
  unfolding on_connection
  on_connection-Keeps s id c (ok (d, a)) q = insert-Keeps s id c d q
  on_connection-Keeps s id c (err e) q = tt
  on_connection-Keeps s id c panic q = tt

  -- A connection that may be there is put in, and its event is queued.
  pub make_connection-Emits :
      (f : Float F) (s : RenetServer F) (id : ℕ) (reliable : Bool)
      → OnReturn (Emits s) (make_connection f s id reliable)
  unfolding make_connection
  make_connection-Emits f s id reliable =
      OnReturn-then (Emits s) (new_from_server f s.connection_config reliable) _ (λ client. (
        client_connected id ∷ [],
        refl,
        λ j. rw (lookup-insert id j (Connection.set_connected client) s.connections) (ground arith),
      ))

  pub add_connection-Emits :
      (f : Float F) (s : RenetServer F) (id : ℕ) (reliable : Bool)
      → OnReturn (Emits s) (add_connection f s id reliable)
  unfolding add_connection
  add_connection-Emits f s id reliable = go (lookup id s.connections) refl
    where
      go :
          (found : Option (RenetClient F))
          → lookup id s.connections ≡ found
          → OnReturn (Emits s) (add_connection f s id reliable)
      go none e = rw (e, add_connection) (make_connection-Emits f s id reliable)
      go (some c) e =
          rw (e, add_connection)
            (elim (Bool-cases (same c.has_reliable_socket reliable)) [
              | inl q ↦ rw q (Keeps-Emits s s (Keeps-refl s))
              | inr q ↦ rw q (make_connection-Emits f s id reliable)
            ])

  pub remove_connection-Emits : (s : RenetServer F) (id : ℕ) → Emits s (remove_connection s id)
  unfolding remove_connection
  remove_connection-Emits s id = go (lookup id s.connections) refl
    where
      go :
          (found : Option (RenetClient F))
          → lookup id s.connections ≡ found
          → Emits s (remove_connection s id)
      go none e = rw (e, remove_connection) (Keeps-Emits s s (Keeps-refl s))
      go (some c) e =
          rw (e, remove_connection)
            (
              client_disconnected id (reason_or transport (Connection.disconnect_reason c)) ∷ [],
              refl,
              λ j. rw (lookup-remove id j s.connections) (ground arith),
            )

  pub disconnect-Keeps : (s : RenetServer F) (id : ℕ) → Keeps s (disconnect s id)
  unfolding disconnect
  disconnect-Keeps s id = go (lookup id s.connections) refl
    where
      go :
          (found : Option (RenetClient F))
          → lookup id s.connections ≡ found
          → Keeps s (disconnect s id)
      go none e = rw (e, disconnect) (Keeps-refl s)
      go (some c) e =
          rw (e, disconnect)
            (insert-Keeps s id c (Connection.disconnect_with_reason c disconnected_by_server) e)

  has-disconnect_each :
      (m : List (ℕ × RenetClient F)) (j : ℕ)
      → is_some (lookup j (disconnect_each m)) ≡ is_some (lookup j m)
  unfolding disconnect_each lookup
  has-disconnect_each [] j = refl
  has-disconnect_each ((id, c) ∷ m) j = elim (Bool-cases (j == id)) [
    | inl e ↦ rw e refl
    | inr e ↦ rw e (has-disconnect_each m j)
  ]

  pub disconnect_all-Keeps : (s : RenetServer F) → Keeps s (disconnect_all s)
  unfolding disconnect_all
  disconnect_all-Keeps s = (refl, λ id. has-disconnect_each s.connections id)

  has-for_each :
      (call : ℕ → RenetClient F → Result ChannelError (RenetClient F))
      (m : List (ℕ × RenetClient F))
      → OnReturn (λ n. (j : ℕ) → is_some (lookup j n) ≡ is_some (lookup j m)) (for_each call m)
  unfolding for_each lookup
  has-for_each call [] = λ j. refl
  has-for_each call ((id, c) ∷ m) =
      OnReturn-then _ (call id c) _ (λ d. others d (for_each call m) (has-for_each call m))
    where
      others :
          (d : RenetClient F) (r : Result ChannelError (List (ℕ × RenetClient F)))
          → OnReturn (λ n. (j : ℕ) → is_some (lookup j n) ≡ is_some (lookup j m)) r
          → OnReturn
              (λ n. (j : ℕ) → is_some (lookup j n) ≡ is_some (lookup j ((id, c) ∷ m)))
              (r >>= λ others. ok ((id, d) ∷ others))
      others d (ok n) h =
          λ j. elim (Bool-cases (j == id)) [ inl e ↦ rw e refl | inr e ↦ rw e (h j) ]
      others d (err x) h = tt
      others d panic h = tt

  pub on_all-Keeps :
      (s : RenetServer F) (call : ℕ → RenetClient F → Result ChannelError (RenetClient F))
      → OnReturn (Keeps s) (on_all s call)
  unfolding on_all
  on_all-Keeps s call = go (for_each call s.connections) (has-for_each call s.connections)
    where
      go :
          (r : Result ChannelError (List (ℕ × RenetClient F)))
          → OnReturn (λ n. (j : ℕ) → is_some (lookup j n) ≡ is_some (lookup j s.connections)) r
          → OnReturn (Keeps s) (r >>= λ connections. ok (record s { connections = connections }))
      go (ok n) h = (refl, h)
      go (err x) h = tt
      go panic h = tt

module _ {F : Type 0} where
  pub get_packets_to_send-Keeps :
      (o : Octets) (buffer : o.Buffer) (s : RenetServer F) (id : ℕ)
      → OnReturn (λ x. Keeps s x.0) (get_packets_to_send o buffer s id)
  unfolding get_packets_to_send
  get_packets_to_send-Keeps o buffer s id = go (lookup id s.connections) refl
    where
      go :
          (found : Option (RenetClient F))
          → lookup id s.connections ≡ found
          → OnReturn (λ x. Keeps s x.0) (get_packets_to_send o buffer s id)
      go none e = rw (e, get_packets_to_send) (Keeps-refl s)
      go (some c) e =
          rw (e, get_packets_to_send)
            (OnReturn-bind (λ x. Keeps s x.0) (λ x. Keeps s x.0)
              (on_connection s id c (Outgoing.get_packets_to_send o buffer c)) _
              (on_connection-Keeps s id c (Outgoing.get_packets_to_send o buffer c) e) (λ x k. k))

  module _ (f : Float F) (o : Octets) where
    pub process_packet_from-Keeps :
        (s : RenetServer F) (payload : Bytes) (id : ℕ)
        → OnReturn (λ x. Keeps s x.0) (process_packet_from f o s payload id)
    unfolding process_packet_from
    process_packet_from-Keeps s payload id = go (lookup id s.connections) refl
      where
        go :
            (found : Option (RenetClient F))
            → lookup id s.connections ≡ found
            → OnReturn (λ x. Keeps s x.0) (process_packet_from f o s payload id)
        go none e = rw (e, process_packet_from) (Keeps-refl s)
        go (some c) e =
            rw (e, process_packet_from)
              (on_connection-Keeps s id c
                (Incoming.process_packet f o c payload >>= λ d. ok (d, true)) e)

    process_packets_from-Keeps :
        (s : RenetServer F) (packets : List Bytes) (id : ℕ)
        → OnReturn (λ x. Keeps s x.0) (process_packets_from f o s packets id)
    unfolding process_packets_from
    process_packets_from-Keeps s [] id = Keeps-refl s
    process_packets_from-Keeps s (p ∷ ps) id =
        OnReturn-bind (λ x. Keeps s x.0) (λ x. Keeps s x.0) (process_packet_from f o s p id) _
          (process_packet_from-Keeps s p id)
          (λ x k. go x.0 x.1 k (process_packets_from-Keeps x.0 ps id))
      where
        go :
            (t : RenetServer F) (found : Bool)
            → Keeps s t
            → OnReturn (λ x. Keeps t x.0) (process_packets_from f o t ps id)
            → OnReturn
                (λ (x : RenetServer F × Bool). Keeps s x.0)
                (elim found [ true ↦ process_packets_from f o t ps id | false ↦ ok (t, false) ])
        go t false k h = k
        go t true k h = later (process_packets_from f o t ps id) h
          where
            later :
                (r : Result ChannelError (RenetServer F × Bool))
                → OnReturn (λ x. Keeps t x.0) r
                → OnReturn (λ x. Keeps s x.0) r
            later (ok (u, b)) h = Keeps-trans s t u k h
            later (err x) h = tt
            later panic h = tt

    pub disconnect_local_client-Emits :
        (s : RenetServer F) (id : ℕ) (client : RenetClient F)
        → Emits s (disconnect_local_client f o s id client).0
    unfolding disconnect_local_client
    disconnect_local_client-Emits s id client = elim (Bool-cases (is_disconnected client)) [
      | inl q ↦ rw q (Keeps-Emits s s (Keeps-refl s))
      | inr q ↦ rw q (go (lookup id s.connections) refl)
    ]
      where
        go :
            (found : Option (RenetClient F))
            → lookup id s.connections ≡ found
            → Emits s (elim found [
              | some connection ↦
                  push_back
                    (record s { connections = remove id s.connections })
                    (client_disconnected id disconnected_by_client)
              | none ↦ s
            ])
        go none e = Keeps-Emits s s (Keeps-refl s)
        go (some c) e = (
          client_disconnected id disconnected_by_client ∷ [],
          refl,
          λ j. rw (lookup-remove id j s.connections) (ground arith),
        )

    exchange-Keeps :
        (buffer : o.Buffer) (s t : RenetServer F) (id : ℕ) (client : RenetClient F)
        (packets : Option (List Bytes))
        → Keeps s t
        → OnReturn (λ x. Keeps s x.0) (exchange f o buffer t id client packets)
    unfolding exchange
    exchange-Keeps buffer s t id client none k = k
    exchange-Keeps buffer s t id client (some packets) k =
        OnReturn-then (λ x. Keeps s x.0) (process_packets f o client packets) _
          (λ d.
            OnReturn-then (λ x. Keeps s x.0) (Outgoing.get_packets_to_send o buffer d) _
              (λ answer.
                OnReturn-bind (λ x. Keeps t x.0) (λ x. Keeps s x.0)
                  (process_packets_from f o t answer.1 id) _
                  (process_packets_from-Keeps t answer.1 id) (λ x h. Keeps-trans s t x.0 k h)))

    pub process_local_client-Keeps :
        (buffer : o.Buffer) (s : RenetServer F) (id : ℕ) (client : RenetClient F)
        → OnReturn (λ x. Keeps s x.0) (process_local_client f o buffer s id client)
    unfolding process_local_client
    process_local_client-Keeps buffer s id client =
        OnReturn-bind (λ x. Keeps s x.0) (λ x. Keeps s x.0) (get_packets_to_send o buffer s id) _
          (get_packets_to_send-Keeps o buffer s id)
          (λ x k. exchange-Keeps buffer s x.0 id client x.1 k)
