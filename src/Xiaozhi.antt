-- ===== src/Xiaozhi.antt =====
-- The xiaozhi transport (internal/transport/xiaozhi).
mod Tests
pub mod Identity
pub mod Frame
pub mod Binary
pub mod Device
