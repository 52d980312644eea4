-- ===== src/Obfuscation.antt =====
-- desktop/internal/obfuscation: the padding of a session by PING frames.
pub mod Padding
pub mod Reach
pub mod Examples
