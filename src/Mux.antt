-- ===== src/Mux.antt =====
-- Package mux (desktop/internal/mux): frames, address blocks, streams and the session.
pub mod Examples
pub mod Errors
pub mod Frame
pub mod Target
pub mod Stream
pub mod Session
