-- ===== src/Pending.antt =====
-- gateway/internal/pending: the requests of the app server that wait for an answer of the user.
pub mod Records
pub mod Manager
pub mod Indexes
pub mod Histories
pub mod Lookups
pub mod Responses
pub mod Inputs
pub mod Grants
pub mod Merges
pub mod Checks
pub mod Secrets
pub mod Scenarios
pub mod Samples
