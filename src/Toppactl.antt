-- ===== src/Toppactl.antt =====
-- desktop/cmd/toppactl/main.go: how its commands authenticate the peer.
pub mod Pairing
pub mod Trust
pub mod Serve
pub mod Ping
pub mod Echo
pub mod Echoing
pub mod Serving
pub mod Repinning
pub mod Examples
