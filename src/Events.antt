-- ===== src/Events.antt =====
-- lib/httpapi/events.go: the event emitter of the HTTP server.
pub mod Types
pub mod Emitter
pub mod Channels
pub mod Timeline
pub mod Replay
