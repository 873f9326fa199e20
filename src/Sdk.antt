-- ===== src/Sdk.antt =====
-- sdk/internal: the part of the engine that runs in the users' processes.
pub mod State
pub mod Future
pub mod Activity
pub mod Program
pub mod Registry
pub mod Retry
pub mod Worker
pub mod Client
pub mod Names
pub mod Delivery
pub mod Connection
pub mod Config
pub mod Histories
mod Examples
