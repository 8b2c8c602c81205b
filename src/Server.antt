-- ===== src/Server.antt =====
-- The HTTP, DNS and API servers: internal/server.
pub mod Host
pub mod Qname
pub mod Http
pub mod Lifecycle
pub mod DnsStart
pub mod Dns
pub mod Api
