-- ===== src/Server.antt =====
-- The server's core: its event types, modules, subscriptions and data (src/impl/event.cpp,
-- src/server/state.cpp).
pub mod EventTypes
pub mod State
pub mod Access
pub mod Subscriptions
pub mod Data
mod Examples
