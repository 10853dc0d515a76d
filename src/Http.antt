-- ===== src/Http.antt =====
-- lib/httpapi/server.go and internal/middleware/auth.go: what stands before the handlers of the server, and
-- the handlers that stream.
pub mod Hosts
pub mod Auth
pub mod Access
pub mod Stream
pub mod Mcp
pub mod Messages
pub mod Links
