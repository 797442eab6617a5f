-- ===== src/Transport.antt =====
-- pkg/transport: peers and how they are written on the wire.
pub mod Host
pub mod HostSet
pub mod Address
pub mod Session
pub mod Tcp
mod Tests
