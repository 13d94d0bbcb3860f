-- ===== src/Chatstate/Buffers.antt =====
-- gateway/internal/chatstate/store.go: what the replay buffers hold.
pub mod Eviction
pub mod Bounds
pub mod Log
pub mod Appends
pub mod Replays
pub mod Histories
pub mod Complete
pub mod Resuming
