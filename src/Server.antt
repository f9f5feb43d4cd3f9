-- ===== src/Server.antt =====
-- The HTTP server of the agent: pkg/server/server.go, http_utils.go and envstore.go. Routing by
-- path, websockets and the encoding of JSON are third-party code.
pub mod Responses
pub mod Deploy
pub mod Exec
pub mod Files
pub mod Logs
pub mod Tail
pub mod Update
mod Tests
