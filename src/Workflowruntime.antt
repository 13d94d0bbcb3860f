-- ===== src/Workflowruntime.antt =====
-- gateway/internal/workflowruntime: the app servers that run for workflows.
pub mod Sessions
pub mod Manager
pub mod Registrations
pub mod Accounts
pub mod Histories
pub mod Closings
pub mod Scenarios
