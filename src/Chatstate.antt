-- ===== src/Chatstate.antt =====
-- gateway/internal/chatstate.
pub mod Types
pub mod Keys
pub mod Failures
pub mod Store
pub mod Channels
pub mod Runs
pub mod Pending
pub mod Replay
pub mod Idempotency
pub mod Steps
pub mod Capacity
pub mod Buffers
pub mod Uniqueness
pub mod Scenarios
