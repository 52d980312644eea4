-- ===== src/Sysroute.antt =====
-- desktop/internal/sysroute/manager.go: the commands of the configurer, and the manager over the journal.
pub mod Netsh
pub mod Manager
pub mod Applying
pub mod Undoing
pub mod Examples
