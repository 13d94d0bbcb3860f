-- ===== src/Tasks.antt =====
-- gateway/internal/tasks: the events of a task, buffered and streamed.
pub mod Events
pub mod Subscribers
pub mod Logs
pub mod Histories
pub mod Cursors
pub mod Delivery
mod Scenarios
