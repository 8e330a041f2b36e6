-- ===== src/Borsh.antt =====
-- Readers and writers of bytes, and what the program uses of the `borsh` crate: `Io` is
-- `std::io::Result`, a codec pairs `BorshSerialize` with `BorshDeserialize`, and `Borsh` is the
-- interface of the crates that are not part of the repository, with its laws in `IsBorsh`.
mod Defs
pub mod Laws
pub mod Format
unfoldable pub use Defs.*
