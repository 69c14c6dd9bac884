-- ===== src/Voxel/Cache/Examples.antt =====
-- The theorem on cached textures at a concrete input.
use buildat.Base.{◌≡◌, refl, Option, none, some, [], ◌∷◌, arith, get_or}
use buildat.Base.Keys.{Bytes}
use buildat.Packet.Registry.{bytes}
use buildat.Voxel.Types.{
  IntVector2, AtlasSegmentDefinition, VoxelDefinition, empty_definition, empty_segment, empty_cache,
  segment_eq,
}
use buildat.Voxel.Atlas.{
  atlas_registry, find_atlas, dst_corner, segment_cache, put_segment, create_atlas, find_segment,
  find_reference, add_segment, find_or_add_segment,
}
use buildat.Voxel.Atlas.Laws.{atlas_registry-IsNumbered}
use buildat.Voxel.Cache.{
  lod_segment, set_texture, set_lod_texture, clear_lod_textures, update_lods, update_face,
  update_faces, update_cache_textures,
}
use buildat.Voxel.Cache.Textures.{Stands, update_cache_textures-Stands}

abbrev images : Bytes → Option IntVector2
images name = some (record { x = 16; y = 16 })

abbrev top : AtlasSegmentDefinition
top = record empty_segment {
  resource_name = bytes "main/grass.png";
  total_segments = record { x = 1; y = 1 };
}

abbrev grass : VoxelDefinition
grass = record empty_definition {
  textures =
      top ∷ empty_segment ∷ empty_segment ∷ empty_segment ∷ empty_segment ∷ empty_segment ∷ [];
}

goes : (update_cache_textures images empty_cache grass atlas_registry).failed ≡ none
unfolding update_cache_textures update_faces update_face update_lods set_texture set_lod_texture
    clear_lod_textures lod_segment find_or_add_segment find_reference find_segment add_segment
    atlas_registry find_atlas create_atlas put_segment segment_cache dst_corner segment_eq
goes = refl

update_cache_textures-Stands_example :
    let t = update_cache_textures images empty_cache grass atlas_registry in
    Stands 0 (get_or grass.textures 0 empty_segment) t.cache.textures t.atlases
update_cache_textures-Stands_example =
    update_cache_textures-Stands images 0 grass empty_cache atlas_registry atlas_registry-IsNumbered
      refl (omega arith) goes (λ e. ground arith)
