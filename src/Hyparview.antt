-- ===== src/Hyparview.antt =====
-- pkg/protocols/hyparview: the partial-view membership protocol.
pub mod Config
pub mod Messages
pub mod Random
pub mod Node
pub mod Tests
