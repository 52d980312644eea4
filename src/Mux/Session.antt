-- ===== src/Mux/Session.antt =====
-- desktop/internal/mux/session.go: the multiplexed session.
pub mod Examples
pub mod State
pub mod Calls
pub mod Table
pub mod Invariant
pub mod Histories
pub mod Gates
pub mod Ending
pub mod Peers
pub mod Writing
pub mod CallsInv
pub mod InboundInv
pub mod Inbound
