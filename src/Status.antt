-- ===== src/Status.antt =====
-- crates/near-kit/src/types/block_reference.rs: the execution status of a transaction and its order.
mod Defs
pub mod Order
pub mod Diamond
unfoldable pub use Defs.*
