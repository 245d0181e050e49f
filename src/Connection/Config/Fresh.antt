-- ===== src/Connection/Config/Fresh.antt =====
-- A client that is made from a configuration is in order.
use renet.Base.{
  ℕ, zero, suc, ◌+◌, ◌<◌, ◌^◌, ◌≡◌, ◌≢◌, refl, sym, ap, ◌∙◌, List, [], ◌∷◌, ◌++◌, Bool, true, false,
  Bool-cases, inl, inr, ◌==◌, some, length, get_elem?, set, replicate, get_elem?-set_self,
  get_elem?-set_ne, arith,
}
use renet.Channel.{Bytes, Returns, Returns-bind}
use renet.Float.{Float}
use renet.ReceiveUnreliable.Discard.{new-IsTimed}
use renet.SendReliable
use renet.SendReliable.{SendChannelReliable}
use renet.SendReliable.History.{new-Holds}
use renet.SendReliable.Memory.{new-IsChannel}
use renet.Slice.Received.{get_elem?-below}
use renet.Connection.{
  SendChannel, ReceiveChannel, ChannelOrder, reliable_channel, unreliable_channel,
}
use renet.Connection.Config.{
  SendType, unreliable, reliable_ordered, reliable_unordered, ChannelConfig, ConnectionConfig,
  downgrade_all, downgrade_to_unreliable, max_channel, send_channel, add_send_channels,
  receive_channel, add_receive_channels, from_channels, new, new_from_server,
}
use renet.Connection.Incoming.Arrivals.{AllTimed-set, IsTimedChannel}
use renet.Connection.Invariant.{IsClient, IsSender, IsOrder, AreOrders, AllTimed}

-- No channel of the list has the id.
abbrev IsNew : ℕ → List ChannelConfig → Type 0
IsNew id [] = Unit {0}
IsNew id (c ∷ cs) = (id ≢ c.channel_id) × IsNew id cs

-- No id stands twice.
abbrev pub AreDistinct : List ChannelConfig → Type 0
AreDistinct [] = Unit {0}
AreDistinct (c ∷ cs) = IsNew c.channel_id cs × AreDistinct cs

-- The memory limits leave room below 2 ^ 64 for the longest message.
abbrev pub HaveRoom : List ChannelConfig → Type 0
HaveRoom [] = Unit {0}
HaveRoom (c ∷ cs) = (c.max_memory_usage_bytes + 1_200_000_000 < 2 ^ 64) × HaveRoom cs

-- The place of each channel of the list is there, and is empty.
module _ {A : Type 0} (empty : A) where
  abbrev Free : List A → List ChannelConfig → Type 0
  Free channels [] = Unit {0}
  Free channels (c ∷ cs) = (get_elem? channels c.channel_id ≡ some empty) × Free channels cs

  Free-set :
      (channels : List A) (id : ℕ) (a : A) (cs : List ChannelConfig)
      → IsNew id cs
      → Free channels cs
      → Free (set channels id a) cs
  Free-set channels id a [] n f = tt
  Free-set channels id a (c ∷ cs) n f = (
    get_elem?-set_ne channels {i = id} {j = c.channel_id} a n.0 ∙ f.0,
    Free-set channels id a cs n.1 f.1,
  )

  get_elem?-replicate : (n i : ℕ) → i < n → get_elem? (replicate n empty) i ≡ some empty
  get_elem?-replicate zero i h = elim h [ ]
  get_elem?-replicate (suc n) zero h = refl
  get_elem?-replicate (suc n) (suc i) h = get_elem?-replicate n i (omega arith)

  Free-replicate :
      (n : ℕ) (cs : List ChannelConfig) → max_channel cs < n → Free (replicate n empty) cs
  unfolding max_channel
  Free-replicate n [] h = tt
  Free-replicate n (c ∷ cs) h = (
    get_elem?-replicate n c.channel_id (ground (arith, h)),
    Free-replicate n cs (ground (arith, h)),
  )

  get_elem?-replicate_only :
      (n i : ℕ) (a : A) → get_elem? (replicate n empty) i ≡ some a → a ≡ empty
  get_elem?-replicate_only zero i a e = cc
  get_elem?-replicate_only (suc n) zero a e = cc
  get_elem?-replicate_only (suc n) (suc i) a e = get_elem?-replicate_only n i a e

-- The reliable channels made so far are in order, with nothing queued.
abbrev AreSenders : List SendChannel → Type 0
AreSenders channels =
    (id : ℕ) (d : SendChannelReliable)
    → get_elem? channels id ≡ some (SendChannel.reliable d)
    → IsSender [] 0 id d

abbrev IsSenderChannel : ℕ → SendChannel → Type 0
IsSenderChannel id (SendChannel.reliable d) = IsSender [] 0 id d
IsSenderChannel id (SendChannel.unreliable d) = Unit {0}
IsSenderChannel id SendChannel.empty = Unit {0}

AreSenders-set :
    (channels : List SendChannel) (id : ℕ) (x : SendChannel)
    → get_elem? channels id ≡ some SendChannel.empty
    → IsSenderChannel id x
    → AreSenders channels
    → AreSenders (set channels id x)
AreSenders-set channels id x q h s j d p = elim (Bool-cases (id == j)) [
  | inl e ↦
      let same : j ≡ id = ground arith in
      let found : some x ≡ some (SendChannel.reliable d) =
        sym (get_elem?-set_self channels id x (get_elem?-below channels id SendChannel.empty q))
        ∙ (ap (get_elem? (set channels id x)) (sym same) ∙ p) in
      let value : x ≡ SendChannel.reliable d = cc in rw same (rw value at h)
  | inr e ↦ s j d (sym (get_elem?-set_ne channels {i = id} {j = j} x (ground arith)) ∙ p)
]

-- An empty place is filled: the orders that were there keep their channels.
IsOrder-set :
    (channels : List SendChannel) (id : ℕ) (x : SendChannel) (order : ChannelOrder)
    → get_elem? channels id ≡ some SendChannel.empty
    → IsOrder channels order
    → IsOrder (set channels id x) order
IsOrder-set channels id x (reliable_channel j) q (d, e) =
    (d, get_elem?-set_ne channels {i = id} {j = j} x (λ same. absurd (cc (rw same at q))) ∙ e)
IsOrder-set channels id x (unreliable_channel j) q (d, e) =
    (d, get_elem?-set_ne channels {i = id} {j = j} x (λ same. absurd (cc (rw same at q))) ∙ e)

AreOrders-set :
    (channels : List SendChannel) (id : ℕ) (x : SendChannel) (orders : List ChannelOrder)
    → get_elem? channels id ≡ some SendChannel.empty
    → AreOrders channels orders
    → AreOrders (set channels id x) orders
AreOrders-set channels id x [] q a = tt
AreOrders-set channels id x (o ∷ os) q a =
    (IsOrder-set channels id x o q a.0, AreOrders-set channels id x os q a.1)

AreOrders-snoc :
    (channels : List SendChannel) (orders : List ChannelOrder) (o : ChannelOrder)
    → AreOrders channels orders
    → IsOrder channels o
    → AreOrders channels (orders ++ o ∷ [])
AreOrders-snoc channels [] o a h = (h, tt)
AreOrders-snoc channels (p ∷ ps) o a h = (a.0, AreOrders-snoc channels ps o a.1 h)

fresh :
    (id resend_time max : ℕ)
    → max + 1_200_000_000 < 2 ^ 64
    → IsSender [] 0 id (SendReliable.new id resend_time max)
unfolding SendReliable.new
fresh id resend_time max h = record {
  identity = refl;
  in_order = new-IsChannel id resend_time max 0 (omega arith);
  history = new-Holds id resend_time max h;
}

send_channel-IsSenderChannel :
    (c : ChannelConfig) (t : SendType)
    → c.max_memory_usage_bytes + 1_200_000_000 < 2 ^ 64
    → IsSenderChannel c.channel_id (send_channel c t).0
unfolding send_channel
send_channel-IsSenderChannel c (unreliable substrate) h = tt
send_channel-IsSenderChannel c (reliable_ordered resend_time) h =
    fresh c.channel_id resend_time c.max_memory_usage_bytes h
send_channel-IsSenderChannel c (reliable_unordered resend_time) h =
    fresh c.channel_id resend_time c.max_memory_usage_bytes h

send_channel-IsOrder :
    (channels : List SendChannel) (c : ChannelConfig) (t : SendType)
    → c.channel_id < length channels
    → IsOrder (set channels c.channel_id (send_channel c t).0) (send_channel c t).1
unfolding send_channel
send_channel-IsOrder channels c (unreliable substrate) h =
    (_, get_elem?-set_self channels c.channel_id _ h)
send_channel-IsOrder channels c (reliable_ordered resend_time) h =
    (_, get_elem?-set_self channels c.channel_id _ h)
send_channel-IsOrder channels c (reliable_unordered resend_time) h =
    (_, get_elem?-set_self channels c.channel_id _ h)

abbrev AreMade : List SendChannel × List ChannelOrder → Type 0
AreMade made = AreSenders made.0 × AreOrders made.0 made.1

add_send_channels-AreMade :
    (cs : List ChannelConfig) (channels : List SendChannel) (orders : List ChannelOrder)
    → AreDistinct cs
    → HaveRoom cs
    → Free SendChannel.empty channels cs
    → AreMade (channels, orders)
    → Returns AreMade (add_send_channels cs (channels, orders))
unfolding add_send_channels
add_send_channels-AreMade [] channels orders d r f m = m
add_send_channels-AreMade (c ∷ cs) channels orders d r f m =
    let x = (send_channel c c.send_type).0 in
    let order = (send_channel c c.send_type).1 in
    rw (f.0, add_send_channels)
      (add_send_channels-AreMade cs (set channels c.channel_id x) (orders ++ order ∷ []) d.1 r.1
        (Free-set SendChannel.empty channels c.channel_id x cs d.0 f.1)
        (
          AreSenders-set channels c.channel_id x f.0
              (send_channel-IsSenderChannel c c.send_type r.0) m.0,
          AreOrders-snoc (set channels c.channel_id x) orders order
              (AreOrders-set channels c.channel_id x orders f.0 m.1)
              (send_channel-IsOrder channels c c.send_type
                (get_elem?-below channels c.channel_id SendChannel.empty f.0)),
        ))

receive_channel-IsTimedChannel :
    (c : ChannelConfig) (t : SendType) → IsTimedChannel 0 (receive_channel c t)
unfolding receive_channel
receive_channel-IsTimedChannel c (unreliable substrate) =
    new-IsTimed c.channel_id c.max_memory_usage_bytes 0
receive_channel-IsTimedChannel c (reliable_ordered resend_time) = tt
receive_channel-IsTimedChannel c (reliable_unordered resend_time) = tt

add_receive_channels-AllTimed :
    (cs : List ChannelConfig) (channels : List ReceiveChannel)
    → AreDistinct cs
    → Free ReceiveChannel.empty channels cs
    → AllTimed 0 channels
    → Returns (AllTimed 0) (add_receive_channels cs channels)
unfolding add_receive_channels
add_receive_channels-AllTimed [] channels d f m = m
add_receive_channels-AllTimed (c ∷ cs) channels d f m =
    let x = receive_channel c c.send_type in
    rw (f.0, add_receive_channels)
      (add_receive_channels-AllTimed cs (set channels c.channel_id x) d.1
        (Free-set ReceiveChannel.empty channels c.channel_id x cs d.0 f.1)
        (AllTimed-set 0 channels c.channel_id x (receive_channel-IsTimedChannel c c.send_type) m))

AllTimed-replicate : (n : ℕ) → AllTimed 0 (replicate n ReceiveChannel.empty)
AllTimed-replicate zero = tt
AllTimed-replicate (suc n) = AllTimed-replicate n

-- Nothing is queued.
abbrev pub no_messages : ℕ → List Bytes
no_messages id = []

module _ {F : Type 0} (f : Float F) where
  from_channels-IsClient :
      (has_reliable_socket : Bool) (available : ℕ) (send receive : List ChannelConfig)
      → AreDistinct send
      → HaveRoom send
      → AreDistinct receive
      → Returns (IsClient no_messages) (from_channels f has_reliable_socket available send receive)
  unfolding from_channels
  from_channels-IsClient has_reliable_socket available send receive d r e =
      let n = max_channel send + 1 in
      let k = max_channel receive + 1 in
      Returns-bind AreMade (IsClient no_messages)
        (add_send_channels send (replicate n SendChannel.empty, [])) _
        (add_send_channels-AreMade send (replicate n SendChannel.empty) [] d r
          (Free-replicate SendChannel.empty n send (omega arith))
          (
            (λ id x q.
                absurd (
                  cc (get_elem?-replicate_only SendChannel.empty n id (SendChannel.reliable x) q))),
            tt,
          ))
        (λ made m.
          Returns-bind (AllTimed 0) (IsClient no_messages)
            (add_receive_channels receive (replicate k ReceiveChannel.empty)) _
            (add_receive_channels-AllTimed receive (replicate k ReceiveChannel.empty) e
              (Free-replicate ReceiveChannel.empty k receive (omega arith)) (AllTimed-replicate k))
            (λ channels t. record {
              senders = m.0;
              orders = m.1;
              rising = tt;
              sent = tt;
              timed = t;
            }))

IsNew-downgrade_all : (id : ℕ) (cs : List ChannelConfig) → IsNew id cs → IsNew id (downgrade_all cs)
unfolding downgrade_all
IsNew-downgrade_all id [] h = tt
IsNew-downgrade_all id (c ∷ cs) h = (h.0, IsNew-downgrade_all id cs h.1)

AreDistinct-downgrade_all :
    (cs : List ChannelConfig) → AreDistinct cs → AreDistinct (downgrade_all cs)
unfolding downgrade_all
AreDistinct-downgrade_all [] h = tt
AreDistinct-downgrade_all (c ∷ cs) h =
    (IsNew-downgrade_all c.channel_id cs h.0, AreDistinct-downgrade_all cs h.1)

HaveRoom-downgrade_all : (cs : List ChannelConfig) → HaveRoom cs → HaveRoom (downgrade_all cs)
unfolding downgrade_all
HaveRoom-downgrade_all [] h = tt
HaveRoom-downgrade_all (c ∷ cs) h = (h.0, HaveRoom-downgrade_all cs h.1)

-- On each side no channel id stands twice, and the memory limits leave room for a message.
pub record IsConfig (config : ConnectionConfig) : Type 0 where
  pub servers : AreDistinct config.server_channels_config
  pub servers_room : HaveRoom config.server_channels_config
  pub clients : AreDistinct config.client_channels_config
  pub clients_room : HaveRoom config.client_channels_config

module _ {F : Type 0} (f : Float F) where
  -- Each side's client is made, no two channels collide, and it is in order with nothing queued.
  pub new-IsClient :
      (config : ConnectionConfig) (has_reliable_socket : Bool)
      → IsConfig config
      → Returns (IsClient no_messages) (new f config has_reliable_socket)
        × Returns (IsClient no_messages) (new_from_server f config has_reliable_socket)
  unfolding new new_from_server downgrade_to_unreliable
  new-IsClient config false v = (
    from_channels-IsClient f false config.available_bytes_per_tick config.client_channels_config
        config.server_channels_config v.clients v.clients_room v.servers,
    from_channels-IsClient f false config.available_bytes_per_tick config.server_channels_config
        config.client_channels_config v.servers v.servers_room v.clients,
  )
  new-IsClient config true v =
      let client = downgrade_all config.client_channels_config in
      let server = downgrade_all config.server_channels_config in
      let clients = AreDistinct-downgrade_all config.client_channels_config v.clients in
      let servers = AreDistinct-downgrade_all config.server_channels_config v.servers in
      (
        from_channels-IsClient f true config.available_bytes_per_tick client server clients
            (HaveRoom-downgrade_all config.client_channels_config v.clients_room) servers,
        from_channels-IsClient f true config.available_bytes_per_tick server client servers
            (HaveRoom-downgrade_all config.server_channels_config v.servers_room) clients,
      )
