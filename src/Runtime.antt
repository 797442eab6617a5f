-- ===== src/Runtime.antt =====
-- pkg/protorun: what stands between the runtime and a protocol's handlers.
pub mod Durations
pub mod Router
pub mod Sessions
pub mod Supervision
mod Tests
pub mod Mailbox
pub mod Process
