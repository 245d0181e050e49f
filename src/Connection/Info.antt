-- ===== src/Connection/Info.antt =====
-- What a connection tells of itself: `NetworkInfo`, and the getters that the statistics answer.
use renet.Float.{Float}
use renet.Stats
use renet.Connection.{RenetClient}

pub record NetworkInfo (F : Type 0) : Type 0 where
  pub rtt : F
  pub packet_loss : F
  pub bytes_sent_per_second : F
  pub bytes_received_per_second : F

module _ {F : Type 0} (f : Float F) where
  pub packet_loss : RenetClient F → F
  packet_loss c = Stats.packet_loss f c.stats

  pub bytes_sent_per_sec : RenetClient F → F
  bytes_sent_per_sec c = Stats.bytes_sent_per_second f c.stats c.current_time

  pub bytes_received_per_sec : RenetClient F → F
  bytes_received_per_sec c = Stats.bytes_received_per_second f c.stats c.current_time

  pub network_info : RenetClient F → NetworkInfo F
  network_info c = record {
    rtt = c.rtt;
    packet_loss = packet_loss c;
    bytes_sent_per_second = bytes_sent_per_sec c;
    bytes_received_per_second = bytes_received_per_sec c;
  }
