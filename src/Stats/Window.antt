-- ===== src/Stats/Window.antt =====
-- What the slots of a window hold.
use renet.Base.{ℕ, ◌<◌, ◌≡◌, ◌≢◌, sym, length, get_elem?, get_elem?-set_ne, arith}
use renet.Stats.{ConnectionStats, slots, index, update}

-- Twenty counts of each kind, and a slot among them.
pub record IsStats (s : ConnectionStats) : Type 0 where
  pub sent : length s.packets_sent ≡ slots
  pub acked : length s.packets_acked ≡ slots
  pub bytes : length s.bytes_sent ≡ slots
  pub received : length s.bytes_received ≡ slots
  pub inside : s.current_index < slots

-- A slot that an update is not in keeps its bytes, however much time has passed: bytes sent more
-- than a window ago are still counted.
pub update_stale :
    (s : ConnectionStats) (current_time i : ℕ)
    → i ≢ index current_time
    → get_elem? (update s current_time).bytes_sent i ≡ get_elem? s.bytes_sent i
unfolding update
update_stale s current_time i h =
    ground
      (arith, get_elem?-set_ne s.bytes_sent {i = index current_time} {j = i} 0 (λ e. h (sym e)))
