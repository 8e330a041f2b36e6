-- ===== src/Amount.antt =====
-- crates/near-kit/src/tokens/types.rs: token amounts, and their decimal text.
pub mod Padding
pub mod Defs
pub mod RoundTrip
pub mod Arithmetic
unfoldable pub use Defs.*
