-- ===== src/Plumtree.antt =====
-- pkg/protocols/plumtree: epidemic broadcast trees.
pub mod Config
pub mod Messages
pub mod Cache
pub mod Node
mod Tests
