-- ===== src/ClientFile.antt =====
-- The module that hands files to the clients (builtin/client_file/client_file.cpp).
pub mod Files
pub mod Requests
pub mod Reload
mod Examples
