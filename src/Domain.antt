-- ===== src/Domain.antt =====
-- gateway/internal/domain: the data that the gateway's components exchange.
mod Errors
mod Enums
mod Displays
mod Events
pub mod Chats
pub mod Responses
pub use Errors.*
pub use Enums.*
pub use Displays.*
pub use Events.*
