-- ===== src/Store.antt =====
-- internal/store: the data-access layer. Each method is an action on the database handle; this
-- module has its errors (errors.go), the children one entity each, and the proofs.
pub mod Errors
pub mod Users
pub mod Sessions
pub mod Progress
pub mod Levels
pub mod Hints
pub mod Tools
pub mod Integrity
pub mod Access
pub mod Write
