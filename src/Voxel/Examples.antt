-- ===== src/Voxel/Examples.antt =====
-- The theorems on voxels, blocks and atlases at concrete inputs.
use buildat.Base.{
  ℕ, ◌+◌, ◌*◌, ◌≤◌, ◌<◌, ◌≡◌, refl, inl, none, some, [], ◌∷◌, length, get_elem?, arith,
}
use buildat.Base.Map.{lookup}
use buildat.Packet.Registry.{bytes}
use buildat.Voxel.Types.{VoxelName, VoxelDefinition, empty_definition, empty_name, voxel_name_eq}
use buildat.Voxel.Registry.{
  VoxelRegistry, voxel_registry, clear, get_all, add_voxel, get_by_id, get_by_name, restore, ok,
}
use buildat.Voxel.Lookup.{
  IsRegistry, Found, added, add_voxel-ok, add_voxel-IsRegistry, add_voxel_keeps,
}
use buildat.Voxel.Restore.{clear-IsRegistry, restore-get_all}
use buildat.Voxel.Block as Block
use buildat.Voxel.Block.{
  Vector3, BlockDefinition, BlockSourceDefinition, BlockRegistry, block_registry, empty_block, row,
  layer, positions_from, positions, face_texture, segment_voxel, add_voxels,
  add_block_with_predefined_segments, add_block_generate_segments, get_block, get_block_by_name,
  texmap_segment_face,
}
use buildat.Voxel.Block.Faces.{texmap_segment_face-IsMirrored}
use buildat.Voxel.Block.Segments.{IsSegmentVoxel, add_block_generate_segments-IsSegmentVoxel}

abbrev grass : VoxelDefinition
grass = record empty_definition { name = record empty_name { block_name = bytes "grass" } }

abbrev start : VoxelRegistry
start = clear voxel_registry

start-IsRegistry : IsRegistry start
start-IsRegistry = clear-IsRegistry voxel_registry

start_empty : lookup grass.name start.name_to_id ≡ none
unfolding clear voxel_registry lookup
start_empty = refl

start_length : length start.defs ≡ 1
unfolding clear voxel_registry
start_length = refl

grass-added : add_voxel grass start ≡ ok (added grass start, length start.defs)
grass-added = add_voxel-ok grass start (omega (arith, start_length)) (inl refl) start_empty

add_voxel-IsRegistry_example :
    IsRegistry (added grass start) × Found grass (length start.defs) (added grass start)
add_voxel-IsRegistry_example =
    add_voxel-IsRegistry grass start (added grass start) (length start.defs) start-IsRegistry
      (omega (arith, start_length)) grass-added

add_voxel_keeps_example :
    (get_by_id 0 start ≡ some empty_definition
      → get_by_id 0 (added grass start) ≡ some empty_definition)
    × (get_by_name empty_name start ≡ some empty_definition
        → get_by_name empty_name (added grass start) ≡ some empty_definition)
add_voxel_keeps_example =
    add_voxel_keeps grass start (added grass start) (length start.defs) 0 empty_name
      empty_definition start-IsRegistry (omega (arith, start_length)) grass-added

restore-get_all_example :
    (x : VoxelRegistry) × (restore (get_all (added grass start)) start ≡ ok x)
    × IsRegistry x
    × (get_all x ≡ get_all (added grass start))
    × ((i : ℕ) → 1 ≤ i → get_by_id i x ≡ get_by_id i (added grass start))
restore-get_all_example = restore-get_all (added grass start) start add_voxel-IsRegistry_example.0

abbrev brick : Vector3
brick = record { x = 2; y = 1; z = 3 }

texmap_segment_face-IsMirrored_example :
    let (total, select) = texmap_segment_face brick (record { x = 1; y = 0; z = 2 }) (2 * 0) in
    let (total', select') =
      texmap_segment_face brick (record { x = 1; y = 0; z = 2 }) (2 * 0 + 1) in
    (select.x < total.x)
    × (select.y < total.y)
    × (total' ≡ total)
    × (select.x + select'.x + 1 ≡ total.x)
    × (select.y + select'.y + 1 ≡ total.y)
texmap_segment_face-IsMirrored_example =
    texmap_segment_face-IsMirrored brick (record { x = 1; y = 0; z = 2 }) 0 (omega arith)
      (omega arith) (omega arith) (omega arith)

abbrev stone : BlockSourceDefinition
stone = record {
  name = bytes "stone";
  num_rotations = 0;
  size = record { x = 1; y = 1; z = 1 };
  side_textures = [] ∷ [] ∷ [] ∷ [] ∷ [] ∷ [] ∷ [];
  handler_module = [];
}

abbrev stone_voxel : VoxelDefinition
stone_voxel = segment_voxel stone (record { x = 0; y = 0; z = 0 })

abbrev stone_added : BlockRegistry
stone_added =
    (add_block_with_predefined_segments
      (record {
        name = stone.name;
        id = 0;
        num_rotations = 0;
        size = stone.size;
        segments = length start.defs ∷ [];
      })
      block_registry).0

abbrev stone_id : ℕ
stone_id =
    (add_block_with_predefined_segments
      (record {
        name = stone.name;
        id = 0;
        num_rotations = 0;
        size = stone.size;
        segments = length start.defs ∷ [];
      })
      block_registry).1

stone_voxel-id : stone_voxel.id ≡ 0
unfolding segment_voxel
stone_voxel-id = refl

start_names : (n : VoxelName) → lookup n start.name_to_id ≡ none
unfolding clear voxel_registry lookup
start_names n = refl

stone_voxels :
    add_voxels stone (positions stone.size) start
    ≡ (added stone_voxel start, ok (length start.defs ∷ []))
unfolding add_voxels positions positions_from layer row
stone_voxels =
    let goes : add_voxel stone_voxel start ≡ ok (added stone_voxel start, length start.defs) =
      add_voxel-ok stone_voxel start (omega (arith, start_length)) (inl stone_voxel-id)
        (start_names stone_voxel.name) in
    ground (arith, goes)

stone_goes :
    add_block_generate_segments stone block_registry start
    ≡ (added stone_voxel start, Block.added stone_added stone_id)
unfolding add_block_generate_segments
stone_goes = ground (arith, stone_voxels)

block_registry_length : length block_registry.defs ≡ 1
unfolding block_registry
block_registry_length = refl

add_block_generate_segments-IsSegmentVoxel_example :
    (block : BlockDefinition) × (get_block stone_id stone_added ≡ some block)
    × (get_block_by_name stone.name stone_added ≡ some block)
    × (block ≡ record {
      name = stone.name;
      id = stone_id;
      num_rotations = stone.num_rotations;
      size = stone.size;
      segments = block.segments;
    })
    × (length block.segments ≡ stone.size.z * (stone.size.y * stone.size.x))
    × ((x y z : ℕ)
        → x < stone.size.x
        → y < stone.size.y
        → z < stone.size.z
        → (vid : ℕ) × (d : VoxelDefinition) × (get_elem? block.segments
              (z * (stone.size.y * stone.size.x) + (y * stone.size.x + x))
            ≡ some vid)
          × (get_by_id vid (added stone_voxel start) ≡ some d)
          × (d.id ≡ vid)
          × IsSegmentVoxel stone (record { x = x; y = y; z = z }) d)
    × IsRegistry (added stone_voxel start)
    × ((i : ℕ) (d : VoxelDefinition)
        → get_by_id i start ≡ some d
        → get_by_id i (added stone_voxel start) ≡ some d)
add_block_generate_segments-IsSegmentVoxel_example =
    add_block_generate_segments-IsSegmentVoxel stone block_registry stone_added start
      (added stone_voxel start) stone_id start-IsRegistry (omega (arith, start_length))
      (omega (arith, block_registry_length)) stone_goes
