-- ===== src/Security.antt =====
-- src/security: who a client is, and whether its address is blocked.
pub mod Network
pub mod Blocking
pub mod Persistence
pub mod Cloudflare
pub mod Client
pub mod Settings
mod Tests
