-- ===== src/Rpc.antt =====
-- client/rpc.rs: the errors that a node answers with, and what `RpcClient` makes of them.
pub mod DebugStr
pub mod Quoted
pub mod Panics
pub mod Legacy
pub mod Causes
pub mod Parse
pub mod Retryable
pub mod RetryLaws
pub mod Attempt
pub mod AttemptLaws
pub mod Calls
