-- ===== src/Events.antt =====
-- The event bus of internal/events.
pub mod Bus
pub mod Tests
