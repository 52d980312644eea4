-- ===== src/Resolver.antt =====
-- desktop/internal/resolver: the answers of the local DNS server and the queries to the upstream.
pub mod Udp
pub mod Tcp
pub mod Doh
pub mod Truncation
pub mod Exchange
pub mod Limits
pub mod Examples
