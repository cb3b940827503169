-- ===== src/Http.antt =====
-- internal/httpx: the HTTP API.
pub mod Limiter
pub mod Message
pub mod Handlers
pub mod Middleware
pub mod Server
pub mod Ttl
mod Tests
pub mod ClientIp
