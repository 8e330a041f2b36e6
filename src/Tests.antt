-- ===== src/Tests.antt =====
-- The theorems applied to concrete values.
mod Samples
mod Wire
mod Keys
mod Messages
mod Sending
mod Statuses
mod Amounts
mod Units
mod Building
mod Waiting
mod Failures
mod Forms
