-- ===== src/Redact.antt =====
-- gateway/internal/redact: exact sensitive values and how a stream of text hides them.
pub mod Strings
pub mod Registry
pub mod Patterns
pub mod Stream
pub mod Splitting
pub mod Boundaries
pub mod Absence
pub mod Transparency
pub mod Covering
pub mod Windows
pub mod Carry
mod Scenarios
