-- ===== src/Tests.antt =====
-- The theorems at concrete inputs.
mod Library
pub mod Tensors
pub mod Names
pub mod Drivers
pub mod Runs
pub mod Handlers
pub mod Clients
pub mod Histories
pub mod Persistence
pub mod Sessions
pub mod Calls
