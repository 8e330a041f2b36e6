-- ===== src/Nep413.antt =====
-- crates/near-kit/src/types/nep413.rs: messages signed off the chain.
mod Defs
pub mod Text
pub mod Verify
pub mod Payload
unfoldable pub use Defs.*
