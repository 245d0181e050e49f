-- ===== src/Stats.antt =====
-- renet2/src/connection_stats.rs: counts of packets and bytes in slots of 300 ms, twenty of them. A
-- `Duration` is its nanoseconds. The index of a slot is below twenty, so no access panics.
pub mod Window
use renet.Base.{
  ℕ, ◌+◌, ◌-◌, ◌*◌, ◌/◌, ◌%◌, ◌^◌, Bool, true, false, List, [], ◌∷◌, ltb, ◌==◌, if◌then◌else◌,
  get_or, set, replicate, add_u64, sub_u64, Result, ok, err, panic,
}
use renet.Channel.{ChannelError}
use renet.Float.{Float}

abbrev pub millis : ℕ
millis = 1_000_000

abbrev pub resolution : ℕ
resolution = 300 * millis

abbrev pub window : ℕ
window = 6000 * millis

abbrev pub slots : ℕ
slots = 20

pub record ConnectionStats : Type 0 where
  pub packets_sent : List ℕ
  pub packets_acked : List ℕ
  pub bytes_sent : List ℕ
  pub bytes_received : List ℕ
  pub current_index : ℕ

unfoldable pub new : ConnectionStats
new = record {
  packets_sent = replicate slots 0;
  packets_acked = replicate slots 0;
  bytes_sent = replicate slots 0;
  bytes_received = replicate slots 0;
  current_index = 0;
}

unfoldable pub index : ℕ → ℕ
index time = (time / millis) / 300 % 2 ^ 64 % slots

unfoldable pub update : ConnectionStats → ℕ → ConnectionStats
update s current_time =
    let i = index current_time in
    if s.current_index == i then s else record {
      packets_sent = set s.packets_sent i 0;
      packets_acked = set s.packets_acked i 0;
      bytes_sent = set s.bytes_sent i 0;
      bytes_received = set s.bytes_received i 0;
      current_index = i;
    }

-- `counts[i] += n`
abbrev pub add_at : List ℕ → ℕ → ℕ → List ℕ
add_at counts i n = set counts i (add_u64 (get_or counts i 0) n)

unfoldable pub sent_packets : ConnectionStats → ℕ → ℕ → ConnectionStats
sent_packets s num_packets bytes = record s {
  packets_sent = add_at s.packets_sent s.current_index num_packets;
  bytes_sent = add_at s.bytes_sent s.current_index bytes;
}

unfoldable pub received_packet : ConnectionStats → ℕ → ConnectionStats
received_packet s bytes = record s {
  bytes_received = add_at s.bytes_received s.current_index bytes;
}

-- The subtraction of a later time panics.
unfoldable pub acked_packet : ConnectionStats → ℕ → ℕ → Result ChannelError ConnectionStats
acked_packet s sent_at current_time =
    if ltb current_time sent_at
    then panic
    else if ltb window (current_time - sent_at)
    then ok s
    else ok (record s { packets_acked = add_at s.packets_acked (index sent_at) 1 })

-- `iter().sum()`
abbrev pub sum : List ℕ → ℕ
sum [] = 0
sum (n ∷ ns) = n + sum ns

module _ {F : Type 0} (f : Float F) where
  -- The slot that is still being filled is left out once a window has passed.
  pub per_second : List ℕ → ℕ → ℕ → F
  per_second counts current_index current_time =
      if ltb current_time window
      then f.div (f.of_u64 (sum counts)) (f.as_secs_f64 current_time)
      else f.div (f.of_u64 (sub_u64 (sum counts) (get_or counts current_index 0)))
          (f.as_secs_f64 (window - resolution))

  pub bytes_sent_per_second : ConnectionStats → ℕ → F
  bytes_sent_per_second s current_time = per_second s.bytes_sent s.current_index current_time

  pub bytes_received_per_second : ConnectionStats → ℕ → F
  bytes_received_per_second s current_time =
      per_second s.bytes_received s.current_index current_time

  -- The current slot and the two before it are left out: an ack could be on its way.
  pub settled : List ℕ → ℕ → F
  settled counts i = f.of_u64 (
      sub_u64
        (sub_u64 (sub_u64 (sum counts) (get_or counts i 0))
          (get_or counts ((i + slots - 1) % slots) 0))
        (get_or counts ((i + slots - 2) % slots) 0))

  pub packet_loss : ConnectionStats → F
  packet_loss s =
      let total_packets_sent = settled s.packets_sent s.current_index in
      let total_packets_acked = settled s.packets_acked s.current_index in
      if f.eq total_packets_sent f.zero
      then f.zero
      else f.div (f.sub total_packets_sent total_packets_acked) total_packets_sent
