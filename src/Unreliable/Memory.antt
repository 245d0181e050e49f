-- ===== src/Unreliable/Memory.antt =====
-- The memory that a sending channel accounts for is that of the messages it holds.
use renet.Base.{
  ℕ, ◌+◌, ◌^◌, ◌<◌, ◌≤◌, ◌≡◌, refl, ◌∙◌, List, [], ◌∷◌, arith, length, add_u64, sub_u64,
  add_u64-exact, sub_u64-exact,
}
use renet.Channel.{Bytes, total, total-append}
use renet.Packet.{Octets}
use renet.Unreliable.{
  SendChannelUnreliable, Sending, send_message, send_round, send_rounds, hold_back, take_up,
  send_small, send_sliced, flush, collect, restore, start, get_packets_to_send,
}

-- The count is exact, and within the channel's limit.
pub record Accounts (c : SendChannelUnreliable) : Type 0 where
  pub exact : c.memory_usage_bytes ≡ total c.unreliable_messages
  pub limited : c.memory_usage_bytes ≤ c.max_memory_usage_bytes
  pub machine : c.max_memory_usage_bytes < 2 ^ 64

-- Queueing a message keeps the memory count exact and within the limit, for every message whose
-- length can be added to the count at all.
pub send_message-Accounts :
    (c : SendChannelUnreliable) (message : Bytes)
    → c.memory_usage_bytes + length message < 2 ^ 64
    → Accounts c
    → Accounts (send_message c message)
unfolding send_message
send_message-Accounts c message h v = ground (
  arith,
  add_u64-exact c.memory_usage_bytes (length message),
  total-append c.unreliable_messages (message ∷ []),
)

module _ (o : Octets) where
  send_round-memory :
      (c : SendChannelUnreliable) (message : Bytes) (l : Sending)
      → (send_round o c message l).memory_usage_bytes
        ≡ sub_u64 l.memory_usage_bytes (length message)
  unfolding send_round hold_back take_up send_small send_sliced flush collect
  send_round-memory c message l = ground arith

  send_rounds-memory :
      (c : SendChannelUnreliable) (messages : List Bytes) (l : Sending)
      → l.memory_usage_bytes ≡ total messages
      → l.memory_usage_bytes < 2 ^ 64
      → (send_rounds o c messages l).memory_usage_bytes ≡ 0
  unfolding send_rounds
  send_rounds-memory c [] l e h = e
  send_rounds-memory c (m ∷ rest) l e h =
      let step : (send_round o c m l).memory_usage_bytes ≡ total rest =
        send_round-memory c m l
        ∙ (sub_u64-exact l.memory_usage_bytes (length m) (omega arith) h ∙ omega arith) in
      send_rounds-memory c rest (send_round o c m l) step (omega arith)

  send_round-overflow :
      (c : SendChannelUnreliable) (message : Bytes) (l : Sending)
      → total (send_round o c message l).overflow_messages
        ≤ total l.overflow_messages + length message
  unfolding send_round hold_back take_up send_small send_sliced flush collect
  send_round-overflow c message l = ground (arith, total-append l.overflow_messages (message ∷ []))

  send_rounds-overflow :
      (c : SendChannelUnreliable) (messages : List Bytes) (l : Sending)
      → total (send_rounds o c messages l).overflow_messages
        ≤ total l.overflow_messages + total messages
  unfolding send_rounds
  send_rounds-overflow c [] l = omega arith
  send_rounds-overflow c (m ∷ rest) l =
      omega (arith, send_round-overflow c m l, send_rounds-overflow c rest (send_round o c m l))

record Restored (c d : SendChannelUnreliable) (saved : List Bytes) : Type 0 where
  memory : d.memory_usage_bytes ≡ c.memory_usage_bytes + total saved
  messages : total d.unreliable_messages ≡ total c.unreliable_messages + total saved
  limit : d.max_memory_usage_bytes ≡ c.max_memory_usage_bytes

restore-Restored :
    (saved : List Bytes) (c : SendChannelUnreliable)
    → c.memory_usage_bytes + total saved < 2 ^ 64
    → Restored c (restore saved c) saved
unfolding restore
restore-Restored [] c h = record { memory = omega arith; messages = omega arith; limit = refl }
restore-Restored (m ∷ rest) c h =
    let e : add_u64 c.memory_usage_bytes (length m) ≡ c.memory_usage_bytes + length m =
      add_u64-exact c.memory_usage_bytes (length m) (omega arith) in
    let d : SendChannelUnreliable = record c {
      unreliable_messages = m ∷ c.unreliable_messages;
      memory_usage_bytes = add_u64 c.memory_usage_bytes (length m);
    } in
    let r : Restored d (restore rest d) rest = restore-Restored rest d (omega arith) in
    record { memory = omega arith; messages = omega arith; limit = r.limit }

-- Sending keeps the memory count exact and within the limit: it counts the messages that are saved
-- for the next call and no others.
pub get_packets_to_send-Accounts :
    (o : Octets) (c : SendChannelUnreliable) (packet_sequence available_bytes : ℕ)
    → Accounts c
    → Accounts (get_packets_to_send o c packet_sequence available_bytes).channel
unfolding get_packets_to_send
get_packets_to_send-Accounts o c s a v =
    let l : Sending = send_rounds o c c.unreliable_messages (start c s a) in
    let empty : l.memory_usage_bytes ≡ 0 =
      send_rounds-memory o c c.unreliable_messages (start c s a) v.exact
        (omega (arith, v.limited, v.machine)) in
    let less : total l.overflow_messages ≤ total c.unreliable_messages =
      omega (arith, send_rounds-overflow o c c.unreliable_messages (start c s a)) in
    let d : SendChannelUnreliable = record c {
      unreliable_messages = [];
      memory_usage_bytes = l.memory_usage_bytes;
      sliced_message_id = l.sliced_message_id;
    } in
    let r : Restored d (restore l.overflow_messages d) l.overflow_messages =
      restore-Restored l.overflow_messages d (omega (arith, v.exact, v.limited, v.machine)) in
    record {
      exact = omega (arith, r.memory, r.messages);
      limited = omega (arith, r.memory, r.limit, v.exact, v.limited);
      machine = omega (arith, r.limit, v.machine);
    }
