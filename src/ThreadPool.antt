-- ===== src/ThreadPool.antt =====
-- The pool of worker threads (src/impl/thread_pool.cpp).
pub mod Pool
pub mod Totals
pub mod Tasks
pub mod Stopping
pub mod Post
mod Examples
