-- ===== src/Keys.antt =====
-- desktop/internal/keys: the files of the local key pair and of the pinned peers.
pub mod Disk
pub mod Store
pub mod Stable
pub mod Pinning
pub mod Examples
