-- ===== src/Loader.antt =====
-- The loader module: src/interface/module_info.h and builtin/loader/loader.cpp.
pub mod Info
pub mod State
pub mod Require
pub mod Step
pub mod Order
pub mod Progress
pub mod Complete
pub mod Optional
pub mod Closure
pub mod Fuel
mod Examples
