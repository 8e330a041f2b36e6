-- ===== src/Builder.antt =====
-- client/transaction.rs: the builders of transactions and of function calls.
pub mod Defs
pub mod Chain
pub mod Meaning
pub mod Meant
pub mod Runs
pub mod Sign
pub mod FirstAttempt
pub mod Delegate
pub mod DelegateLaws
