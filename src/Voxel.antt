-- ===== src/Voxel.antt =====
-- Voxels, blocks and texture atlases: the registries of src/impl/voxel.cpp, src/impl/block.cpp and
-- src/impl/atlas.cpp, with their headers under src/interface.
pub mod Atlas
pub mod Types
pub mod Registry
pub mod Lookup
pub mod Restore
pub mod Cache
pub mod Block
mod Examples
