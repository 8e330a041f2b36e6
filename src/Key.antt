-- ===== src/Key.antt =====
-- crates/near-kit/src/types/key.rs: key types, public keys, handles and signatures.
mod Defs
pub mod Wire
pub mod Text
pub mod Handle
pub mod Verify
pub mod Secret
pub mod Sign
pub mod Path
pub mod PathLaws
unfoldable pub use Defs.*
