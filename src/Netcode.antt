-- ===== src/Netcode.antt =====
-- renetcode2/src/packet.rs, with the helpers of renetcode2/src/serialize.rs and crypto.rs: how a
-- packet of the netcode protocol is written, encrypted, decrypted and read.
pub mod Bytes
pub mod Cipher
pub mod Wire
pub mod RoundTrip
pub mod Panics
pub mod Sealed
pub mod Challenge
mod Runs
