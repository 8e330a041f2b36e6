-- ===== src/Transaction.antt =====
-- crates/near-kit/src/types/transaction.rs: transactions, their versions and their wire form.
mod Defs
pub mod Codec
pub mod Round
pub mod Versions
pub mod Signing
unfoldable pub use Defs.*
