-- ===== src/UpdateQueue.antt =====
-- The queue of updates by distance (src/lua_bindings/spatial_update_queue.cpp).
pub mod ValueSet
pub mod Queue
pub mod Find
pub mod Items
pub mod Invariant
pub mod Calls
mod Examples
