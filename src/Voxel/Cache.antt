-- ===== src/Voxel/Cache.antt =====
-- The cached definitions of CVoxelRegistry (src/impl/voxel.cpp).
pub mod Textures
mod Examples
use buildat.Base.{
  ℕ, ◌+◌, Option, none, some, List, [], ◌∷◌, true, not, if◌then◌else◌, ltb, ◌==◌, length, get_elem?,
  get_or, set, resize,
}
use buildat.Base.Keys.{Bytes, bytes_eq}
use buildat.Voxel.Types.{
  IntVector2, AtlasSegmentReference, AtlasSegmentDefinition, VoxelDefinition, CachedVoxelDefinition,
  empty_cache, empty_segment, no_segment, six, max_lod_with_shadows, lod_top_face,
  lod_semibright1_face, lod_semibright2_face, lod_bake_shadows, get_id,
}
use buildat.Voxel.Registry.{VoxelRegistry}
use buildat.Voxel.Atlas.{AtlasRegistry, Error, ok, err, find_or_add_segment}

unfoldable pub update_cache_basic : CachedVoxelDefinition → VoxelDefinition → CachedVoxelDefinition
update_cache_basic cache def = record cache {
  handler_module = def.handler_module;
  face_draw_type = def.face_draw_type;
  edge_material_id = def.edge_material_id;
  physically_solid = def.physically_solid;
}

-- The definition for the level of detail `j` of the face `i`: `lod |= flag` for flags whose bits
-- are not in `lod`, which is at most 4.
unfoldable pub lod_segment : ℕ → ℕ → AtlasSegmentDefinition → AtlasSegmentDefinition
lod_segment j i seg =
    let lod = 2 + j in
    record seg {
      lod_simulation =
          lod
          + (if i == 0 then lod_top_face else 0)
          + (if i == 5 then lod_semibright1_face else 0)
          + (if i == 2 then lod_semibright2_face else 0)
          + (if ltb max_lod_with_shadows lod then lod_bake_shadows else 0);
    }

unfoldable pub set_texture :
    ℕ → AtlasSegmentReference → CachedVoxelDefinition → CachedVoxelDefinition
set_texture i ref cache = record cache { textures = set cache.textures i ref }

-- `lod_textures[j][i] = ref`
unfoldable pub set_lod_texture :
    ℕ → ℕ → AtlasSegmentReference → CachedVoxelDefinition → CachedVoxelDefinition
set_lod_texture j i ref cache = record cache {
  lod_textures =
      set cache.lod_textures j (set (get_or cache.lod_textures j (six no_segment)) i ref);
}

unfoldable pub clear_lod_textures : ℕ → List ℕ → CachedVoxelDefinition → CachedVoxelDefinition
clear_lod_textures i [] cache = cache
clear_lod_textures i (j ∷ js) cache = clear_lod_textures i js (set_lod_texture j i no_segment cache)

-- What was written before an exception stays written.
pub record Textured : Type 0 where
  pub cache : CachedVoxelDefinition
  pub atlases : AtlasRegistry
  pub failed : Option Error

-- The levels of detail, and the faces.
abbrev pub lods : List ℕ
lods = 0 ∷ 1 ∷ 2 ∷ []

abbrev pub faces : List ℕ
faces = 0 ∷ 1 ∷ 2 ∷ 3 ∷ 4 ∷ 5 ∷ []

-- The result of a call of get_cached(); `cached` is `none` for a null pointer.
pub record Looked : Type 0 where
  pub registry : VoxelRegistry
  pub atlases : Option AtlasRegistry
  pub cached : Option CachedVoxelDefinition
  pub failed : Option Error

-- The definition `cache` of `id` is written to the vector.
unfoldable pub write_cache : ℕ → CachedVoxelDefinition → VoxelRegistry → VoxelRegistry
write_cache id cache r = record r { cached_defs = set r.cached_defs id cache }

unfoldable pub grow_cache : VoxelRegistry → VoxelRegistry
grow_cache r =
    if ltb (length r.cached_defs) (length r.defs)
    then record r { cached_defs = resize (length r.defs) empty_cache r.cached_defs }
    else r

unfoldable pub validate_basic : CachedVoxelDefinition → VoxelDefinition → CachedVoxelDefinition
validate_basic cache def =
    if not cache.valid then record (update_cache_basic cache def) { valid = true } else cache

module _ (images : Bytes → Option IntVector2) where
  unfoldable pub update_lods :
      ℕ → AtlasSegmentDefinition → List ℕ → CachedVoxelDefinition → AtlasRegistry → Textured
  update_lods i seg [] cache atlases = record { cache = cache; atlases = atlases; failed = none }
  update_lods i seg (j ∷ js) cache atlases =
      let (atlases', result) = find_or_add_segment images (lod_segment j i seg) atlases in
      elim result [
        | err e ↦ record { cache = cache; atlases = atlases'; failed = some e }
        | ok ref ↦ update_lods i seg js (set_lod_texture j i ref cache) atlases'
      ]

  -- One round of the loop over the faces.
  unfoldable pub update_face :
      ℕ → AtlasSegmentDefinition → CachedVoxelDefinition → AtlasRegistry → Textured
  update_face i seg cache atlases =
      let (atlases', result) = find_or_add_segment images seg atlases in
      if bytes_eq seg.resource_name []
      then record {
        cache = clear_lod_textures i lods (set_texture i no_segment cache);
        atlases = atlases;
        failed = none;
      }
      else elim result [
        | err e ↦ record { cache = cache; atlases = atlases'; failed = some e }
        | ok ref ↦ update_lods i seg lods (set_texture i ref cache) atlases'
      ]

  unfoldable pub update_faces :
      List ℕ → VoxelDefinition → CachedVoxelDefinition → AtlasRegistry → Textured
  update_faces [] def cache atlases = record { cache = cache; atlases = atlases; failed = none }
  update_faces (i ∷ is) def cache atlases =
      let t = update_face i (get_or def.textures i empty_segment) cache atlases in
      elim t.failed [ some e ↦ t | none ↦ update_faces is def t.cache t.atlases ]

  unfoldable pub update_cache_textures :
      CachedVoxelDefinition → VoxelDefinition → AtlasRegistry → Textured
  update_cache_textures cache def atlases = update_faces faces def cache atlases

  -- The last part of get_cached(): the textures, if there is an atlas registry.
  unfoldable pub validate_textures :
      ℕ → CachedVoxelDefinition → VoxelDefinition → Option AtlasRegistry → VoxelRegistry → Looked
  validate_textures id cache def atlas_reg r = elim atlas_reg [
    | none ↦ record {
      registry = write_cache id cache r;
      atlases = none;
      cached = some cache;
      failed = none;
    }
    | some atlases ↦
        (let t = update_cache_textures cache def atlases in
          if cache.textures_valid
          then record {
            registry = write_cache id cache r;
            atlases = some atlases;
            cached = some cache;
            failed = none;
          }
          else elim t.failed [
            | some e ↦ record {
              registry = write_cache id t.cache r;
              atlases = some t.atlases;
              cached = none;
              failed = some e;
            }
            | none ↦ record {
              registry = write_cache id (record t.cache { textures_valid = true }) r;
              atlases = some t.atlases;
              cached = some (record t.cache { textures_valid = true });
              failed = none;
            }
          ])
  ]

  unfoldable pub get_cached : ℕ → Option AtlasRegistry → VoxelRegistry → Looked
  get_cached id atlas_reg r =
      let r' = grow_cache r in
      elim (get_elem? r.defs id) [
        | none ↦ record { registry = r; atlases = atlas_reg; cached = none; failed = none }
        | some def ↦
            validate_textures id (validate_basic (get_or r'.cached_defs id empty_cache) def) def
              atlas_reg r'
      ]

  -- By a voxel: `bits` is its data.
  unfoldable pub get_cached_of : ℕ → Option AtlasRegistry → VoxelRegistry → Looked
  get_cached_of bits atlas_reg r = get_cached (get_id bits) atlas_reg r
