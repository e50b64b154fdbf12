-- ===== src/Websocket.antt =====
-- The live connections of internal/websocket.
pub mod Hub
pub mod Tests
