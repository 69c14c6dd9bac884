-- ===== src/Voxel/Block.antt =====
-- CBlockRegistry (src/impl/block.cpp, src/interface/block.h).
pub mod Faces
pub mod Generate
pub mod Positions
pub mod Segments
use buildat.Base.{
  ℕ, zero, suc, ◌+◌, ◌-◌, ◌*◌, ◌%◌, ◌≡◌, Option, none, some, List, [], ◌∷◌, ◌++◌, Bool, true, false,
  not, if◌then◌else◌, leb, ◌==◌, length, get_elem?, get_or, resize, set,
}
use buildat.Base.Keys.{Bytes, bytes_eq_instance}
use buildat.Base.Map.{Map, lookup, insert}
use buildat.Voxel.Types.{
  IntVector2, AtlasSegmentDefinition, VoxelDefinition, empty_definition, empty_segment,
}
use buildat.Voxel.Registry.{id_mod, VoxelRegistry, add_voxel, ok, err}
use buildat.Voxel.Registry as VoxelRegistryModule

-- A Vector3DUint8.
pub record Vector3 : Type 0 where
  pub x : ℕ
  pub y : ℕ
  pub z : ℕ

pub record BlockDefinition : Type 0 where
  pub name : Bytes
  pub id : ℕ
  pub num_rotations : ℕ
  pub size : Vector3
  pub segments : List ℕ

pub record BlockSourceDefinition : Type 0 where
  pub name : Bytes
  pub num_rotations : ℕ
  pub size : Vector3
  pub side_textures : List Bytes
  pub handler_module : Bytes

-- The default values.
abbrev pub empty_block : BlockDefinition
empty_block = record {
  name = [];
  id = 0;
  num_rotations = 0;
  size = record { x = 0; y = 0; z = 0 };
  segments = [];
}

-- total_segments and select_segment for a face. For a face above 5, the source leaves them as
-- they are: here the default values. The differences are those of the source for a segment inside
-- the block, which is all that it is called for.
unfoldable pub texmap_segment_face : Vector3 → Vector3 → ℕ → IntVector2 × IntVector2
texmap_segment_face size segi face_i =
    if face_i == 0
    then (record { x = size.x; y = size.z }, record { x = segi.x; y = segi.z })
    else if face_i == 1
    then (
      record { x = size.x; y = size.z },
      record { x = size.x - 1 - segi.x; y = size.z - 1 - segi.z },
    )
    else if face_i == 2
    then (record { x = size.y; y = size.z }, record { x = segi.y; y = segi.z })
    else if face_i == 3
    then (
      record { x = size.y; y = size.z },
      record { x = size.y - 1 - segi.y; y = size.z - 1 - segi.z },
    )
    else if face_i == 4
    then (record { x = size.x; y = size.y }, record { x = segi.x; y = segi.y })
    else if face_i == 5
    then (
      record { x = size.x; y = size.y },
      record { x = size.x - 1 - segi.x; y = size.y - 1 - segi.y },
    )
    else (record { x = 0; y = 0 }, record { x = 0; y = 0 })

-- The voxel registry that it points to is passed along.
pub record BlockRegistry : Type 0 where
  pub defs : List BlockDefinition
  pub name_to_id : Map Bytes ℕ

-- The constructor.
unfoldable pub block_registry : BlockRegistry
block_registry = record { defs = resize 1 empty_block []; name_to_id = [] }

unfoldable pub add_block_with_predefined_segments :
    BlockDefinition → BlockRegistry → BlockRegistry × ℕ
add_block_with_predefined_segments def r =
    let id = length r.defs % id_mod in
    (
      record {
        defs = set (resize ((id + 1) % id_mod) empty_block r.defs) id (record def { id = id });
        name_to_id = insert def.name id r.name_to_id;
      },
      id,
    )

-- The segments in the order of the three loops: x runs fastest.
unfoldable pub row : ℕ → ℕ → ℕ → ℕ → List Vector3
row x zero y z = []
row x (suc n) y z = record { x = x; y = y; z = z } ∷ row (suc x) n y z

unfoldable pub layer : ℕ → ℕ → ℕ → ℕ → List Vector3
layer size_x y zero z = []
layer size_x y (suc n) z = row 0 size_x y z ++ layer size_x (suc y) n z

unfoldable pub positions_from : ℕ → ℕ → ℕ → ℕ → List Vector3
positions_from size_x size_y z zero = []
positions_from size_x size_y z (suc n) =
    layer size_x 0 size_y z ++ positions_from size_x size_y (suc z) n

unfoldable pub positions : Vector3 → List Vector3
positions size = positions_from size.x size.y 0 size.z

-- The texture of the face `i` of a segment.
unfoldable pub face_texture : BlockSourceDefinition → Vector3 → ℕ → AtlasSegmentDefinition
face_texture def segi i =
    let (total, select) = texmap_segment_face def.size segi i in
    record empty_segment {
      resource_name = get_or def.side_textures i [];
      total_segments = total;
      select_segment = select;
    }

-- The voxel of a segment.
unfoldable pub segment_voxel : BlockSourceDefinition → Vector3 → VoxelDefinition
segment_voxel def segi = record empty_definition {
  name = record {
    block_name = def.name;
    segment_x = segi.x;
    segment_y = segi.y;
    segment_z = segi.z;
    rotation_primary = 0;
    rotation_secondary = 0;
  };
  handler_module = def.handler_module;
  textures =
      face_texture def segi 0
      ∷ face_texture def segi 1
      ∷ face_texture def segi 2
      ∷ face_texture def segi 3
      ∷ face_texture def segi 4
      ∷ face_texture def segi 5
      ∷ [];
}

pub data Failure : Type 0 where
  not_six_textures : Failure
  voxel_failed : VoxelRegistryModule.Error → Failure

-- The voxels of the segments: the registry afterwards, and the ids or the first exception.
unfoldable pub add_voxels :
    BlockSourceDefinition
    → List Vector3
    → VoxelRegistry
    → VoxelRegistry × VoxelRegistryModule.Result (List ℕ)
add_voxels def [] v = (v, ok [])
add_voxels def (segi ∷ segis) v = elim (add_voxel (segment_voxel def segi) v) [
  | err e ↦ (v, err e)
  | ok (v', vid) ↦
      (let (v'', rest) = add_voxels def segis v' in
        elim rest [ err e ↦ (v'', err e) | ok vids ↦ (v'', ok (vid ∷ vids)) ])
]

pub data Added : Type 0 where
  added : BlockRegistry → ℕ → Added
  failed : Failure → Added

-- The block registry is as before if this fails; the voxel registry keeps what was added to it.
unfoldable pub add_block_generate_segments :
    BlockSourceDefinition → BlockRegistry → VoxelRegistry → VoxelRegistry × Added
add_block_generate_segments def r v =
    let (v', vids) = add_voxels def (positions def.size) v in
    if not (length def.side_textures == 6) then (v, failed not_six_textures) else elim vids [
      | err e ↦ (v', failed (voxel_failed e))
      | ok segments ↦
          (let (r', id) =
              add_block_with_predefined_segments
                (record empty_block {
                  name = def.name;
                  num_rotations = def.num_rotations;
                  size = def.size;
                  segments = segments;
                })
                r in
            (v', added r' id))
    ]

-- `none` is a null pointer.
unfoldable pub get_block : ℕ → BlockRegistry → Option BlockDefinition
get_block id r = if leb (length r.defs) id then none else get_elem? r.defs id

unfoldable pub get_block_by_name : Bytes → BlockRegistry → Option BlockDefinition
get_block_by_name name r = elim (lookup name r.name_to_id) [
  | none ↦ none
  | some id ↦ get_block id r
]
