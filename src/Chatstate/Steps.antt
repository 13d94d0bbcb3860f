-- ===== src/Chatstate/Steps.antt =====
-- gateway/internal/chatstate: the store's operations as steps, and induction over them.
pub mod Calls
pub mod Keeps
