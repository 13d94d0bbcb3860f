-- ===== src/Chatstate/Uniqueness.antt =====
-- gateway/internal/chatstate/store.go: what an operation that succeeded rules out afterwards.
pub mod MapKeys
pub mod Resolutions
pub mod Retries
