-- ===== src/Paxos.antt =====
-- pkg/protocols/paxos: single-decree Paxos.
pub mod Rules
pub mod Storage
pub mod Messages
pub mod Node
pub mod Config
mod Tests
mod RuleTests
