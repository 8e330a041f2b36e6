-- ===== src/Client.antt =====
-- crates/near-kit/src/client: nonces, retries and the sending of transactions.
pub mod Errors
pub mod Nonces
pub mod NonceOrder
pub mod Retry
pub mod RetryLaws
pub mod Backoff
pub mod Signers
pub mod Send
pub mod SendInduction
pub mod SendLaws
pub mod SendRuns
pub mod SendNonces
pub mod SendLive
pub mod Paging
pub mod PagingLaws
pub mod WaitLevel
pub mod WaitLaws
pub mod WaitSend
