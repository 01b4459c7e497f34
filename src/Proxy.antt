-- ===== src/Proxy.antt =====
-- internal/proxy: the HTTP proxy in front of the upstream proxies.
pub mod Upstream
pub mod Route
pub mod Server
pub mod Headers
pub mod Tunnel
pub mod Clients
pub mod Lifecycle
