-- ===== src/Proxy.antt =====
-- src/http_proxy: the reverse proxy for plain HTTP routes.
pub mod Config
pub mod Path
pub mod Pool
pub mod Headers
pub mod Routes
mod Tests
