-- ===== src/Voxel/Types.antt =====
-- The data of src/interface/voxel.h and src/interface/atlas.h.
use buildat.Base.{ℕ, ◌/◌, ◌%◌, ◌^◌, ◌≡◌, List, [], ◌∷◌, Bool, true, false, ◌&&◌, arith, ◌==◌, ◌↔◌}
use buildat.Base.Keys.{Bytes, Eq, bytes_eq, bytes_eq_iff}

-- The components of the engine's integer vectors, which are not negative where they stand.
pub record IntVector2 : Type 0 where
  pub x : ℕ
  pub y : ℕ

abbrev pub vector_eq : IntVector2 → IntVector2 → Bool
vector_eq a b = (a.x == b.x) && (a.y == b.y)

pub record AtlasSegmentReference : Type 0 where
  pub atlas_id : ℕ
  pub segment_id : ℕ

-- The default values: the undefined atlas.
abbrev pub no_segment : AtlasSegmentReference
no_segment = record { atlas_id = 0; segment_id = 0 }

abbrev pub max_lod_with_shadows : ℕ
max_lod_with_shadows = 2

abbrev pub lod_top_face : ℕ
lod_top_face = 0x10

abbrev pub lod_semibright1_face : ℕ
lod_semibright1_face = 0x20

abbrev pub lod_semibright2_face : ℕ
lod_semibright2_face = 0x40

abbrev pub lod_bake_shadows : ℕ
lod_bake_shadows = 0x80

pub record AtlasSegmentDefinition : Type 0 where
  pub resource_name : Bytes
  pub total_segments : IntVector2
  pub select_segment : IntVector2
  pub lod_simulation : ℕ

-- AtlasSegmentDefinition::operator==
unfoldable pub segment_eq : AtlasSegmentDefinition → AtlasSegmentDefinition → Bool
segment_eq a b =
    bytes_eq a.resource_name b.resource_name
    && vector_eq a.total_segments b.total_segments
    && vector_eq a.select_segment b.select_segment
    && (a.lod_simulation == b.lod_simulation)

pub segment_eq_iff : (a b : AtlasSegmentDefinition) → (segment_eq a b ≡ true) ↔ (a ≡ b)
unfolding segment_eq
segment_eq_iff a b = (
  λ h. ground (arith, bytes_eq_iff a.resource_name b.resource_name),
  λ h. ground (arith, bytes_eq_iff a.resource_name b.resource_name),
)

pub record VoxelName : Type 0 where
  pub block_name : Bytes
  pub segment_x : ℕ
  pub segment_y : ℕ
  pub segment_z : ℕ
  pub rotation_primary : ℕ
  pub rotation_secondary : ℕ

-- VoxelName::operator==
unfoldable pub name_eq : VoxelName → VoxelName → Bool
name_eq a b =
    bytes_eq a.block_name b.block_name
    && (a.segment_x == b.segment_x)
    && (a.segment_y == b.segment_y)
    && (a.segment_z == b.segment_z)
    && (a.rotation_primary == b.rotation_primary)
    && (a.rotation_secondary == b.rotation_secondary)

pub name_eq_iff : (a b : VoxelName) → (name_eq a b ≡ true) ↔ (a ≡ b)
unfolding name_eq
name_eq_iff a b = (
  λ h. ground (arith, bytes_eq_iff a.block_name b.block_name),
  λ h. ground (arith, bytes_eq_iff a.block_name b.block_name),
)

instance abbrev pub voxel_name_eq : Eq VoxelName
voxel_name_eq = record { beq = name_eq; beq_iff = name_eq_iff }

pub data FaceDrawType : Type 0 where
  never always on_edge : FaceDrawType

-- `textures` has six elements, one for each side.
pub record VoxelDefinition : Type 0 where
  pub name : VoxelName
  pub id : ℕ
  pub textures : List AtlasSegmentDefinition
  pub handler_module : Bytes
  pub face_draw_type : FaceDrawType
  pub edge_material_id : ℕ
  pub physically_solid : Bool

abbrev pub empty_segment : AtlasSegmentDefinition
empty_segment = record {
  resource_name = [];
  total_segments = record { x = 0; y = 0 };
  select_segment = record { x = 0; y = 0 };
  lod_simulation = 0;
}

abbrev pub empty_name : VoxelName
empty_name = record {
  block_name = [];
  segment_x = 0;
  segment_y = 0;
  segment_z = 0;
  rotation_primary = 0;
  rotation_secondary = 0;
}

-- The default values.
abbrev pub empty_definition : VoxelDefinition
empty_definition = record {
  name = empty_name;
  id = 0;
  textures =
      empty_segment ∷ empty_segment ∷ empty_segment ∷ empty_segment ∷ empty_segment ∷ empty_segment
      ∷ [];
  handler_module = [];
  face_draw_type = on_edge;
  edge_material_id = 0;
  physically_solid = false;
}

abbrev pub voxeldef_num_lod : ℕ
voxeldef_num_lod = 3

-- `lod_textures` holds a row of six references for each level of detail.
pub record CachedVoxelDefinition : Type 0 where
  pub valid : Bool
  pub handler_module : Bytes
  pub face_draw_type : FaceDrawType
  pub edge_material_id : ℕ
  pub physically_solid : Bool
  pub textures_valid : Bool
  pub textures : List AtlasSegmentReference
  pub lod_textures : List (List AtlasSegmentReference)

abbrev pub six : AtlasSegmentReference → List AtlasSegmentReference
six r = r ∷ r ∷ r ∷ r ∷ r ∷ r ∷ []

abbrev pub empty_cache : CachedVoxelDefinition
empty_cache = record {
  valid = false;
  handler_module = [];
  face_draw_type = on_edge;
  edge_material_id = 0;
  physically_solid = false;
  textures_valid = false;
  textures = six no_segment;
  lod_textures = six no_segment ∷ six no_segment ∷ six no_segment ∷ [];
}

-- VoxelInstance: 21 bits of type id under the most significant bits.
unfoldable pub get_id : ℕ → ℕ
get_id bits = bits % 2 ^ 21

unfoldable pub get_msb : ℕ → ℕ
get_msb bits = bits / 2 ^ 24 % 256
