-- ===== src/Server.antt =====
-- internal/server: the manager, which turns commands into histories and histories into tasks.
pub mod Decode
pub mod Broker
pub mod Command
pub mod WorkflowTasks
pub mod ActivityTasks
pub mod ActivityRetries
pub mod WorkflowResults
pub mod Manager
pub mod Answers
pub mod Demo
pub mod Setup
pub mod Startup
pub mod Config
pub mod Logging
pub mod Logger
mod Examples
