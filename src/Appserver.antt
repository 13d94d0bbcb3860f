-- ===== src/Appserver.antt =====
-- gateway/internal/appserver: the protocol with the app server.
pub mod Rpc
pub mod Dispatcher
pub mod Responses
pub mod Requests
pub mod Calls
pub mod Steps
pub mod Accounts
pub mod Settling
pub mod Conservation
pub mod Answers
pub mod Bindings
pub mod Lifecycles
pub mod Scenarios
