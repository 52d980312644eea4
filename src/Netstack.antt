-- ===== src/Netstack.antt =====
-- desktop/internal/netstack: between the packets of the adapter and the flows of the dialer. The TCP/IP stack is gVisor's.
pub mod Link
pub mod Engine
pub mod Delivery
pub mod Reading
pub mod Pump
pub mod Relaying
pub mod Closing
pub mod Start
pub mod Examples
