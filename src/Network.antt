-- ===== src/Network.antt =====
-- The module that keeps the connected peers (builtin/network/network.cpp).
pub mod Peers
pub mod Module
pub mod Invariant
pub mod Reload
pub mod Stream
mod Examples
