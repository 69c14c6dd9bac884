-- ===== src/Voxel/Registry.antt =====
-- CVoxelRegistry without its cache (src/impl/voxel.cpp). A registry with its cache is in
-- Voxel/Cache.antt.
use buildat.Base.{
  ℕ, ◌+◌, ◌%◌, Option, none, some, List, [], ◌∷◌, Bool, true, false, not, ◌&&◌, if◌then◌else◌, ◌==◌,
  leb, length, get_elem?, resize, set, drop,
}
use buildat.Base.Map.{Map, lookup, insert}
use buildat.Voxel.Types.{
  VoxelName, VoxelDefinition, CachedVoxelDefinition, empty_definition, voxel_name_eq,
}

-- The range of VoxelTypeId, a uint32_t.
abbrev pub id_mod : ℕ
id_mod = 4294967296

pub record VoxelRegistry : Type 0 where
  pub defs : List VoxelDefinition
  pub cached_defs : List CachedVoxelDefinition
  pub name_to_id : Map VoxelName ℕ
  pub is_dirty : Bool

pub data Error : Type 0 where
  wrong_id : Error
  already_exists : Error

pub data Result {ℓ} (A : Type ℓ) : Type ℓ where
  ok : A → Result A
  err : Error → Result A

-- The constructor.
unfoldable pub voxel_registry : VoxelRegistry
voxel_registry = record {
  defs = resize 1 empty_definition [];
  cached_defs = [];
  name_to_id = [];
  is_dirty = false;
}

unfoldable pub clear : VoxelRegistry → VoxelRegistry
clear r = record r { defs = resize 1 empty_definition []; cached_defs = []; name_to_id = [] }

unfoldable pub get_all : VoxelRegistry → List VoxelDefinition
get_all r = drop 1 r.defs

-- The end of add_voxel(): the definition goes into the vector and the map.
unfoldable pub store_voxel : VoxelDefinition → ℕ → VoxelRegistry → VoxelRegistry
store_voxel def id r = record {
  defs = set (resize ((id + 1) % id_mod) empty_definition r.defs) id (record def { id = id });
  cached_defs = r.cached_defs;
  name_to_id = insert def.name id r.name_to_id;
  is_dirty = true;
}

unfoldable pub add_voxel : VoxelDefinition → VoxelRegistry → Result (VoxelRegistry × ℕ)
add_voxel def r =
    let id = length r.defs % id_mod in
    if not (def.id == 0) && not (id == def.id)
    then err wrong_id
    else elim (lookup def.name r.name_to_id) [
      | some _ ↦ err already_exists
      | none ↦ ok (store_voxel def id r, id)
    ]

-- `none` is a null pointer.
unfoldable pub get_by_id : ℕ → VoxelRegistry → Option VoxelDefinition
get_by_id id r = if leb (length r.defs) id then none else get_elem? r.defs id

unfoldable pub get_by_name : VoxelName → VoxelRegistry → Option VoxelDefinition
get_by_name name r = elim (lookup name r.name_to_id) [ none ↦ none | some id ↦ get_by_id id r ]

unfoldable pub is_registry_dirty : VoxelRegistry → Bool
is_registry_dirty r = r.is_dirty

unfoldable pub clear_dirty : VoxelRegistry → VoxelRegistry
clear_dirty r = record r { is_dirty = false }

-- The loop of deserialize(): the first exception ends it.
unfoldable pub add_all : List VoxelDefinition → VoxelRegistry → Result VoxelRegistry
add_all [] r = ok r
add_all (def ∷ defs) r = elim (add_voxel def r) [ err e ↦ err e | ok (r', _) ↦ add_all defs r' ]

-- deserialize(), when the archive has given the definitions.
unfoldable pub restore : List VoxelDefinition → VoxelRegistry → Result VoxelRegistry
restore defs r = add_all defs (clear r)
