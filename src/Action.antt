-- ===== src/Action.antt =====
-- crates/near-kit/src/types/action.rs: actions, access keys, delegate actions, and their wire form.
mod Defs
pub mod Fields
pub mod WellFormed
pub mod FieldsRound
pub mod Codec
pub mod Round
pub mod Nesting
pub mod FromAction
pub mod Reads
pub mod Delegate
pub mod Constructors
unfoldable pub use Defs.*
