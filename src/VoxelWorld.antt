-- ===== src/VoxelWorld.antt =====
-- The voxel world (builtin/voxelworld/voxelworld.cpp).
pub mod Coords
pub mod Containers
pub mod Section
pub mod Index
pub mod World
pub mod Volume
pub mod Buffers
pub mod Commit
pub mod Sweep
pub mod Unload
pub mod Ready
pub mod Access
pub mod Chunks
pub mod Voxels
pub mod Commits
mod Examples
mod CompressExamples
mod StoredExamples
