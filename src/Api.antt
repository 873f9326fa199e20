-- ===== src/Api.antt =====
-- api/: the events, tasks, commands and keys that the SDK and the server exchange.
pub mod Values
pub mod Events
pub mod Tasks
pub mod Keys
pub mod Converter
mod Examples
