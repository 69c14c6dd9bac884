-- ===== src/Voxel/Block/Segments.antt =====
-- The voxels of a block by the places of its segments: an independent description of what
-- add_block_generate_segments() adds (src/impl/block.cpp).

use buildat.Base.{
  ℕ, zero, suc, ◌+◌, ◌-◌, ◌*◌, ◌/◌, ◌%◌, ◌<◌, ◌≡◌, refl, ap, some, List, [], ◌∷◌, length, get_elem?,
  get_or, arith, inl, inr, ◌⊎◌, ◌==◌, if◌then◌else◌,
}
use buildat.Base.Keys.{Bytes}
use buildat.Voxel.Types.{IntVector2, AtlasSegmentDefinition, VoxelDefinition, empty_definition}
use buildat.Voxel.Registry.{id_mod, VoxelRegistry, get_by_id}
use buildat.Voxel.Lookup.{IsRegistry}
use buildat.Voxel.Block.{
  Vector3, BlockDefinition, BlockSourceDefinition, BlockRegistry, texmap_segment_face, face_texture,
  segment_voxel, positions, add_block_generate_segments, get_block, get_block_by_name,
}
use buildat.Voxel.Block as Block
use buildat.Voxel.Block.Generate.{add_block_generate_segments-IsGenerated, side_textures_six}
use buildat.Voxel.Block.Positions.{get_elem?-positions}

-- The two coordinates along a face: x and z for faces 0 and 1, y and z for 2 and 3, x and y for 4
-- and 5.
abbrev pub across : ℕ → Vector3 → IntVector2
across face p =
    if face / 2 == 0
    then record { x = p.x; y = p.z }
    else if face / 2 == 1
    then record { x = p.y; y = p.z }
    else record { x = p.x; y = p.y }

-- A texture shows the part at `at` of the image of a face of the block: from the low end on the
-- faces 0, 2 and 4, and from the high end on the faces 1, 3 and 5.
pub record ShowsFace (def : BlockSourceDefinition) (at : Vector3) (face : ℕ)
    (t : AtlasSegmentDefinition) : Type 0 where
  pub image : get_elem? def.side_textures face ≡ some t.resource_name
  pub parts : t.total_segments ≡ across face def.size
  pub part :
      ((face % 2 ≡ 0) × (t.select_segment ≡ across face at))
      ⊎ ((face % 2 ≡ 1)
          × (t.select_segment.x + (across face at).x + 1 ≡ (across face def.size).x)
          × (t.select_segment.y + (across face at).y + 1 ≡ (across face def.size).y))
  pub no_lod : t.lod_simulation ≡ 0

-- The voxel of the segment at `at`: it is named for the block and the place without a rotation,
-- has the block's handler and six textures that show the faces, and the defaults else.
pub record IsSegmentVoxel (def : BlockSourceDefinition) (at : Vector3) (d : VoxelDefinition)
    : Type 0 where
  pub name : d.name ≡ record {
    block_name = def.name;
    segment_x = at.x;
    segment_y = at.y;
    segment_z = at.z;
    rotation_primary = 0;
    rotation_secondary = 0;
  }
  pub handler_module : d.handler_module ≡ def.handler_module
  pub six : length d.textures ≡ 6
  pub faces :
      (face : ℕ)
      → face < 6
      → (t : AtlasSegmentDefinition) × (get_elem? d.textures face ≡ some t)
        × ShowsFace def at face t
  pub defaults : d ≡ record empty_definition {
    name = d.name;
    id = d.id;
    textures = d.textures;
    handler_module = d.handler_module;
  }

get_elem?-get_or : (l : List Bytes) (i : ℕ) → i < length l → get_elem? l i ≡ some (get_or l i [])
get_elem?-get_or [] i h = absurd (omega arith)
get_elem?-get_or (b ∷ l) zero h = refl
get_elem?-get_or (b ∷ l) (suc i) h = get_elem?-get_or l i (omega arith)

module _ (def : BlockSourceDefinition) (at : Vector3) (hx : at.x < def.size.x)
    (hy : at.y < def.size.y) (hz : at.z < def.size.z) (six : length def.side_textures ≡ 6) where
  low_face :
      (face : ℕ)
      → face < 6
      → face % 2 ≡ 0
      → texmap_segment_face def.size at face ≡ (across face def.size, across face at)
      → ShowsFace def at face (face_texture def at face)
  unfolding face_texture
  low_face face h low e = record {
    image = get_elem?-get_or def.side_textures face (omega arith);
    parts = ap (λ p. p.0) e;
    part = inl (low, ap (λ p. p.1) e);
    no_lod = refl;
  }

  high_face :
      (face : ℕ)
      → face < 6
      → face % 2 ≡ 1
      → (across face at).x < (across face def.size).x
      → (across face at).y < (across face def.size).y
      → texmap_segment_face def.size at face ≡ (
        across face def.size,
        record {
          x = (across face def.size).x - 1 - (across face at).x;
          y = (across face def.size).y - 1 - (across face at).y;
        },
      )
      → ShowsFace def at face (face_texture def at face)
  unfolding face_texture
  high_face face h high in_x in_y e = record {
    image = get_elem?-get_or def.side_textures face (omega arith);
    parts = ap (λ p. p.0) e;
    part = inr (high, omega (arith, ap (λ p. p.1.x) e), omega (arith, ap (λ p. p.1.y) e));
    no_lod = refl;
  }

  segment_voxel-faces :
      (face : ℕ)
      → face < 6
      → (t : AtlasSegmentDefinition) × (get_elem? (segment_voxel def at).textures face ≡ some t)
        × ShowsFace def at face t
  unfolding segment_voxel texmap_segment_face
  segment_voxel-faces zero h = (face_texture def at 0, refl, low_face 0 h refl refl)
  segment_voxel-faces (suc zero) h = (face_texture def at 1, refl, high_face 1 h refl hx hz refl)
  segment_voxel-faces (suc (suc zero)) h = (face_texture def at 2, refl, low_face 2 h refl refl)
  segment_voxel-faces (suc (suc (suc zero))) h =
      (face_texture def at 3, refl, high_face 3 h refl hy hz refl)
  segment_voxel-faces (suc (suc (suc (suc zero)))) h =
      (face_texture def at 4, refl, low_face 4 h refl refl)
  segment_voxel-faces (suc (suc (suc (suc (suc zero))))) h =
      (face_texture def at 5, refl, high_face 5 h refl hx hy refl)
  segment_voxel-faces (suc (suc (suc (suc (suc (suc face)))))) h = absurd (omega arith)

  segment_voxel-IsSegmentVoxel :
      (id : ℕ) → IsSegmentVoxel def at (record (segment_voxel def at) { id = id })
  unfolding segment_voxel
  segment_voxel-IsSegmentVoxel id = record {
    name = refl;
    handler_module = refl;
    six = refl;
    faces = λ face h. segment_voxel-faces face h;
    defaults = refl;
  }

-- If add_block_generate_segments() returns an id, there is a block with the name, the rotations and
-- the size of the definition that is found by that id, which it has, and by its name. It has
-- size.x * size.y * size.z segments, and the one at (x, y, z), which is number
-- z * (size.y * size.x) + (y * size.x + x), is the id of a voxel that is found by it and has it:
-- the voxel for that place of the block. The voxel registry is in order, and every voxel that was
-- found by an id before is found by it as before. This is for registries with ids left.
pub add_block_generate_segments-IsSegmentVoxel :
    (def : BlockSourceDefinition) (r r' : BlockRegistry) (v v' : VoxelRegistry) (id : ℕ)
    → IsRegistry v
    → length v.defs + def.size.z * (def.size.y * def.size.x) < id_mod
    → length r.defs + 1 < id_mod
    → add_block_generate_segments def r v ≡ (v', Block.added r' id)
    → (block : BlockDefinition) × (get_block id r' ≡ some block)
      × (get_block_by_name def.name r' ≡ some block)
      × (block ≡ record {
        name = def.name;
        id = id;
        num_rotations = def.num_rotations;
        size = def.size;
        segments = block.segments;
      })
      × (length block.segments ≡ def.size.z * (def.size.y * def.size.x))
      × ((x y z : ℕ)
          → x < def.size.x
          → y < def.size.y
          → z < def.size.z
          → (vid : ℕ) × (d : VoxelDefinition) × (get_elem? block.segments
                (z * (def.size.y * def.size.x) + (y * def.size.x + x))
              ≡ some vid)
            × (get_by_id vid v' ≡ some d)
            × (d.id ≡ vid)
            × IsSegmentVoxel def (record { x = x; y = y; z = z }) d)
      × IsRegistry v'
      × ((i : ℕ) (d : VoxelDefinition) → get_by_id i v ≡ some d → get_by_id i v' ≡ some d)
add_block_generate_segments-IsSegmentVoxel def r r' v v' id reg room room' h =
    let (block, by_id, by_name, is, many, g) =
      add_block_generate_segments-IsGenerated def r r' v v' id reg room room' h in
    (
      block,
      by_id,
      by_name,
      is,
      many,
      λ x y z hx hy hz.
          (let at : Vector3 = record { x = x; y = y; z = z } in
            let (vid, there, found) =
              g.stands (z * (def.size.y * def.size.x) + (y * def.size.x + x)) at
                (get_elem?-positions def.size x y z hx hy hz) in
            (
              vid,
              record (segment_voxel def at) { id = vid },
              there,
              found,
              refl,
              segment_voxel-IsSegmentVoxel def at hx hy hz (side_textures_six def r r' v v' id h)
                  vid,
            )),
      g.registry,
      g.keeps,
    )
