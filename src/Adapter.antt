-- ===== src/Adapter.antt =====
-- desktop/internal/adapter: the loopback device, of which the drivers of the system are the other implementation.
pub mod Loopback
pub mod Wintun
pub mod Owning
pub mod Fifo
pub mod Examples
