-- ===== src/Failsafe.antt =====
-- desktop/internal/failsafe: the mutation journal, and the rollback of what it lists.
pub mod Examples
pub mod Journal
pub mod Marking
pub mod Rollback
