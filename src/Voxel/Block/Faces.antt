-- ===== src/Voxel/Block/Faces.antt =====
-- The textures of the faces of a block (texmap_segment_face() in src/impl/block.cpp).
use buildat.Base.{ℕ, zero, suc, ◌+◌, ◌*◌, ◌<◌, ◌≡◌, arith}
use buildat.Voxel.Block.{Vector3, texmap_segment_face}

-- For a segment inside the block, the part of the image for a face (faces 0, 2 and 4, and the
-- opposite faces 1, 3 and 5) is inside the image, the image has as many parts on both of two
-- opposite faces, and the two parts are mirror images of each other in it.
pub texmap_segment_face-IsMirrored :
    (size segi : Vector3) (k : ℕ)
    → segi.x < size.x
    → segi.y < size.y
    → segi.z < size.z
    → k < 3
    → let (total, select) = texmap_segment_face size segi (2 * k) in
      let (total', select') = texmap_segment_face size segi (2 * k + 1) in
      (select.x < total.x)
      × (select.y < total.y)
      × (total' ≡ total)
      × (select.x + select'.x + 1 ≡ total.x)
      × (select.y + select'.y + 1 ≡ total.y)
unfolding texmap_segment_face
texmap_segment_face-IsMirrored size segi zero hx hy hz hk = ground arith
texmap_segment_face-IsMirrored size segi (suc zero) hx hy hz hk = ground arith
texmap_segment_face-IsMirrored size segi (suc (suc zero)) hx hy hz hk = ground arith
texmap_segment_face-IsMirrored size segi (suc (suc (suc k))) hx hy hz hk = absurd (omega arith)
