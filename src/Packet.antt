-- ===== src/Packet.antt =====
-- renet2/src/packet.rs: the packets of a connection, and their bytes. What it calls of the octets
-- crate is the parameter `o`.
mod Crate
mod Wire
mod Emits
pub mod Ranges
pub mod Messages
pub mod Decoded
pub mod Written
pub mod RoundTrip
pub mod Quic
mod Runs
pub use Crate.*
unfoldable pub use Wire.*
