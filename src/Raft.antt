-- ===== src/Raft.antt =====
-- pkg/protocols/raft: the Raft server.
pub mod Log
pub mod Rules
pub mod Storage
pub mod Messages
pub mod Server
pub mod Config
mod Tests
