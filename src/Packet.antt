-- ===== src/Packet.antt =====
-- cpp/sddspacket.h
pub mod Bytes
pub mod Time
pub mod Header
pub mod Flags
pub mod Wire
pub mod Layout
pub mod Decode
