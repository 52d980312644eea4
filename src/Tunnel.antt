-- ===== src/Tunnel.antt =====
-- Package tunnel (desktop/internal/tunnel): the encrypted channel.
pub mod Examples
pub mod Noise
pub mod Record
pub mod Framing
pub mod Handshake
pub mod Admission
pub mod Honest
pub mod Runs
pub mod Agreement
pub mod AgreementExamples
