-- ===== src/Chatruntime.antt =====
-- gateway/internal/chatruntime: the service that serves chats from the chat store.
pub mod Messages
pub mod Streams
pub mod Starts
pub mod Opening
pub mod Orders
pub mod Deliveries
pub mod Positions
pub mod Refusals
pub mod Scenarios
