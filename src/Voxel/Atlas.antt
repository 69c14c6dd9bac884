-- ===== src/Voxel/Atlas.antt =====
-- CAtlasRegistry (src/impl/atlas.cpp). The engine's images and textures are not modelled: an image
-- is its size, and of the drawing there are the positions of the pixels. Float quotients are pairs.
pub mod Search
pub mod Laws
pub mod References
pub mod Reuse
mod Examples
use buildat.Base.{
  ℕ, zero, suc, ◌+◌, ◌-◌, ◌*◌, ◌/◌, ◌%◌, ◌≡◌, Option, none, some, List, [], ◌∷◌, ◌++◌, Bool, true,
  false, not, ◌&&◌, ◌||◌, if◌then◌else◌, ltb, leb, ◌==◌, length, get_elem?, resize, set,
}
use buildat.Base.Keys.{Bytes}
use buildat.Voxel.Types.{
  IntVector2, vector_eq, AtlasSegmentReference, AtlasSegmentDefinition, empty_segment, segment_eq,
}

abbrev pub max_res : ℕ
max_res = 2048

-- Texture coordinates: the numerators and the denominators.
pub record AtlasSegmentCache : Type 0 where
  pub coord0 : IntVector2
  pub coord1 : IntVector2
  pub scale : IntVector2

pub record AtlasDefinition : Type 0 where
  pub id : ℕ
  pub segment_resolution : IntVector2
  pub total_segments : IntVector2
  pub segments : List AtlasSegmentDefinition

pub record AtlasCache : Type 0 where
  pub segment_resolution : IntVector2
  pub total_segments : IntVector2
  pub segments : List AtlasSegmentCache

pub record AtlasRegistry : Type 0 where
  pub defs : List AtlasDefinition
  pub cache : List AtlasCache

abbrev pub zero_vector : IntVector2
zero_vector = record { x = 0; y = 0 }

abbrev pub empty_atlas : AtlasDefinition
empty_atlas = record {
  id = 0;
  segment_resolution = zero_vector;
  total_segments = zero_vector;
  segments = [];
}

abbrev pub empty_atlas_cache : AtlasCache
empty_atlas_cache = record {
  segment_resolution = zero_vector;
  total_segments = zero_vector;
  segments = [];
}

abbrev pub empty_segment_cache : AtlasSegmentCache
empty_segment_cache = record { coord0 = zero_vector; coord1 = zero_vector; scale = zero_vector }

-- The constructor: element 0 is the undefined atlas.
unfoldable pub atlas_registry : AtlasRegistry
atlas_registry = record { defs = resize 1 empty_atlas []; cache = [] }

-- `division_by_zero` is undefined behaviour; the others are exceptions.
pub data Error : Type 0 where
  no_image zero_total too_many division_by_zero : Error

pub data Result {ℓ} (A : Type ℓ) : Type ℓ where
  ok : A → Result A
  err : Error → Result A

-- What was written before an exception stays written.
abbrev pub Outcome : Type 0
Outcome = AtlasRegistry × Result AtlasSegmentReference

-- The search for an atlas for this image size that is not full, from index `i` on.
unfoldable pub find_atlas : IntVector2 → ℕ → List AtlasDefinition → Option ℕ
find_atlas size i [] = none
find_atlas size i (def0 ∷ defs) =
    let rest = find_atlas size (suc i) defs in
    if def0.id == 0
    then rest
    else if vector_eq def0.segment_resolution size
        && ltb (length def0.segments) (def0.total_segments.x * def0.total_segments.y)
    then some i
    else rest

-- The position of a segment in the atlas image: its upper left corner with its border.
unfoldable pub dst_corner : ℕ → AtlasCache → IntVector2
dst_corner seg_id atlas =
    let seg_iy = seg_id / atlas.total_segments.x in
    let seg_ix = seg_id - seg_iy * atlas.total_segments.x in
    record {
      x = seg_ix * atlas.segment_resolution.x * 2;
      y = seg_iy * atlas.segment_resolution.y * 2;
    }

-- Where update_segment_cache() puts the pixel (x, y) of the doubled segment, for
-- x < 2 * size.x and y < 2 * size.y.
unfoldable pub dst_pixel : ℕ → AtlasCache → ℕ → ℕ → IntVector2
unfolding dst_corner
dst_pixel seg_id atlas x y = record {
  x = (dst_corner seg_id atlas).x + x;
  y = (dst_corner seg_id atlas).y + y;
}

-- And where it takes it from. `lod` is 1 for the main texture.
unfoldable pub src_pixel : IntVector2 → AtlasSegmentDefinition → AtlasCache → ℕ → ℕ → ℕ → IntVector2
src_pixel img def atlas lod x y =
    let size = atlas.segment_resolution in
    record {
      x = img.x / def.total_segments.x * def.select_segment.x + (x + size.x / 2) * lod % size.x;
      y = img.y / def.total_segments.y * def.select_segment.y + (y + size.y / 2) * lod % size.y;
    }

-- The coordinates that update_segment_cache() enters, or why it fails.
unfoldable pub segment_cache : ℕ → AtlasSegmentDefinition → AtlasCache → Result AtlasSegmentCache
unfolding dst_corner
segment_cache seg_id def atlas =
    let total = atlas.total_segments in
    let size = atlas.segment_resolution in
    let p00 = dst_corner seg_id atlas in
    let p0 : IntVector2 = record { x = p00.x + size.x / 2; y = p00.y + size.y / 2 } in
    if ltb (total.x * total.y) (length atlas.segments)
    then err too_many
    else if total.x == 0
    then err division_by_zero
    else if (def.total_segments.x == 0) || (def.total_segments.y == 0)
    then err division_by_zero
    else ok (record {
      coord0 = p0;
      coord1 = record { x = p0.x + size.x; y = p0.y + size.y };
      scale = record { x = total.x * size.x * 2; y = total.y * size.y * 2 };
    })

abbrev pub atlas_at : ℕ → AtlasRegistry → AtlasDefinition
atlas_at i r = elim (get_elem? r.defs i) [ none ↦ empty_atlas | some d ↦ d ]

abbrev pub cache_at : ℕ → AtlasRegistry → AtlasCache
cache_at i r = elim (get_elem? r.cache i) [ none ↦ empty_atlas_cache | some c ↦ c ]

-- The end of add_segment(), for the atlas at index `i`.
unfoldable pub put_segment : ℕ → AtlasSegmentDefinition → AtlasRegistry → Outcome
put_segment i def r =
    let atlas = atlas_at i r in
    let seg_id = length atlas.segments in
    let atlas' = record atlas {
      segments = set (resize (suc seg_id) empty_segment atlas.segments) seg_id def;
    } in
    let cache = cache_at atlas.id r in
    let cache' : AtlasCache = record cache {
      segments = resize (suc seg_id) empty_segment_cache cache.segments;
    } in
    let r' : AtlasRegistry = record {
      defs = set r.defs i atlas';
      cache = set r.cache atlas.id cache';
    } in
    elim (segment_cache seg_id def cache') [
      | err e ↦ (r', err e)
      | ok c ↦ (
        record r' {
          cache = set r.cache atlas.id (record cache' { segments = set cache'.segments seg_id c });
        },
        ok (record { atlas_id = atlas.id; segment_id = seg_id }),
      )
    ]

-- A new atlas for an image of this size: its index, and the registry with it.
unfoldable pub create_atlas :
    IntVector2 → AtlasSegmentDefinition → AtlasRegistry → AtlasRegistry × Result ℕ
create_atlas size def r =
    let id = length r.defs in
    let total = def.total_segments in
    let numbered : AtlasDefinition = record empty_atlas { id = id } in
    let res : IntVector2 = record { x = size.x / total.x; y = size.y / total.y } in
    let segs : IntVector2 = record { x = max_res / res.x / 2; y = max_res / res.y / 2 } in
    let cached : AtlasCache = record {
      segment_resolution = res;
      total_segments = segs;
      segments = [];
    } in
    let bare = set (resize (suc id) empty_atlas r.defs) id numbered in
    if (total.x == 0) || (total.y == 0)
    then (record r { defs = bare }, err zero_total)
    else if (res.x == 0) || (res.y == 0)
    then (
      record r { defs = set bare id (record numbered { segment_resolution = res }) },
      err division_by_zero,
    )
    else (
      record {
        defs = set bare id (record numbered { segment_resolution = res; total_segments = segs });
        cache = set (resize (suc id) empty_atlas_cache r.cache) id cached;
      },
      ok id,
    )

-- A segment equal to `def` in the list, from index `j` on.
unfoldable pub find_segment : AtlasSegmentDefinition → ℕ → List AtlasSegmentDefinition → Option ℕ
find_segment def j [] = none
find_segment def j (d ∷ ds) =
    let rest = find_segment def (suc j) ds in if segment_eq d def then some j else rest

unfoldable pub find_reference :
    AtlasSegmentDefinition → List AtlasDefinition → Option AtlasSegmentReference
find_reference def [] = none
find_reference def (a ∷ defs) =
    let rest = find_reference def defs in
    elim (find_segment def 0 a.segments) [
      | some j ↦ some (record { atlas_id = a.id; segment_id = j })
      | none ↦ rest
    ]

unfoldable pub get_atlas_definition : ℕ → AtlasRegistry → Option AtlasDefinition
get_atlas_definition id r =
    if id == 0 then none else if leb (length r.defs) id then none else get_elem? r.defs id

unfoldable pub get_segment_definition :
    AtlasSegmentReference → AtlasRegistry → Option AtlasSegmentDefinition
get_segment_definition ref r = elim (get_atlas_definition ref.atlas_id r) [
  | none ↦ none
  | some atlas ↦
      if leb (length atlas.segments) ref.segment_id
      then none
      else get_elem? atlas.segments ref.segment_id
]

unfoldable pub get_atlas_cache : ℕ → AtlasRegistry → Option AtlasCache
get_atlas_cache id r =
    if id == 0 then none else if leb (length r.cache) id then none else get_elem? r.cache id

unfoldable pub get_texture : AtlasSegmentReference → AtlasRegistry → Option AtlasSegmentCache
get_texture ref r = elim (get_atlas_cache ref.atlas_id r) [
  | none ↦ none
  | some atlas ↦
      if leb (length atlas.segments) ref.segment_id
      then none
      else get_elem? atlas.segments ref.segment_id
]

-- The engine's resource cache: the size of the image of a name, if it has one.
module _ (images : Bytes → Option IntVector2) where
  unfoldable pub add_segment : AtlasSegmentDefinition → AtlasRegistry → Outcome
  add_segment def r = elim (images def.resource_name) [
    | none ↦ (r, err no_image)
    | some size ↦ elim (find_atlas size 0 r.defs) [
      | some i ↦ put_segment i def r
      | none ↦
          (let (r', created) = create_atlas size def r in
            elim created [ err e ↦ (r', err e) | ok i ↦ put_segment i def r' ])
    ]
  ]

  unfoldable pub find_or_add_segment : AtlasSegmentDefinition → AtlasRegistry → Outcome
  find_or_add_segment def r = elim (find_reference def r.defs) [
    | some ref ↦ (r, ok ref)
    | none ↦ add_segment def r
  ]
