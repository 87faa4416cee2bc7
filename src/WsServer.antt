-- ===== src/WsServer.antt =====
-- The WebSocket server of both devices, esp32/shared/src/ws_server.cpp.
pub mod Messages
pub mod Clients
pub mod Optimized
pub mod Commands
pub mod Dispatch
pub mod Handler
pub mod Task
