-- ===== src/Relay.antt =====
-- desktop/internal/relay: the header sanitizer and the dialer with its pacing gate.
pub mod Examples
pub mod Sanitize
pub mod Dialer
pub mod Flow
