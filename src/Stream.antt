-- ===== src/Stream.antt =====
-- The event stream: reparto_service/services/sse.py.
pub mod Events
pub mod Broker
pub mod Projection
pub mod Buffer
mod Tests
