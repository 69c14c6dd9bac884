-- ===== src/Voxel/Atlas/Examples.antt =====
-- The theorems on the atlas registry at concrete inputs.
use buildat.Base.{◌≡◌, refl, Option, none, some, arith}
use buildat.Base.Keys.{Bytes}
use buildat.Packet.Registry.{bytes}
use buildat.Voxel.Types.{IntVector2, AtlasSegmentReference, AtlasSegmentDefinition, empty_segment}
use buildat.Voxel.Atlas.{
  AtlasRegistry, atlas_registry, ok, find_atlas, dst_corner, segment_cache, put_segment,
  create_atlas, find_segment, find_reference, get_segment_definition, add_segment,
  find_or_add_segment,
}
use buildat.Voxel.Atlas.Laws.{IsNumbered, atlas_registry-IsNumbered}
use buildat.Voxel.Atlas.References.{find_or_add_segment-Gives}
use buildat.Voxel.Atlas.Reuse.{add_segment-find_atlas}

-- Every name has an image of 64 times 32 pixels.
abbrev images : Bytes → Option IntVector2
images name = some (record { x = 64; y = 32 })

abbrev half : AtlasSegmentDefinition
half = record empty_segment {
  resource_name = bytes "main/rock.png";
  total_segments = record { x = 2; y = 1 };
}

abbrev first : AtlasSegmentReference
first = record { atlas_id = 1; segment_id = 0 }

abbrev after : AtlasRegistry
after = (add_segment images half atlas_registry).0

adds : add_segment images half atlas_registry ≡ (after, ok first)
unfolding add_segment atlas_registry find_atlas create_atlas put_segment segment_cache dst_corner
adds = refl

finds_or_adds : find_or_add_segment images half atlas_registry ≡ (after, ok first)
unfolding find_or_add_segment find_reference find_segment add_segment atlas_registry find_atlas
    create_atlas put_segment segment_cache dst_corner
finds_or_adds = refl

find_or_add_segment-Gives_example :
    (get_segment_definition first after ≡ some half)
    × ((ref' : AtlasSegmentReference) (d : AtlasSegmentDefinition)
        → get_segment_definition ref' atlas_registry ≡ some d
        → get_segment_definition ref' after ≡ some d)
    × IsNumbered after.defs
    × ((find_or_add_segment images half after).0 ≡ after)
find_or_add_segment-Gives_example =
    find_or_add_segment-Gives images half atlas_registry after first atlas_registry-IsNumbered
      finds_or_adds

no_atlas : find_atlas (record { x = 64; y = 32 }) 0 atlas_registry.defs ≡ none
unfolding find_atlas atlas_registry
no_atlas = refl

add_segment-find_atlas_example : find_atlas (record { x = 64; y = 32 }) 0 after.defs ≡ none
add_segment-find_atlas_example =
    add_segment-find_atlas images half atlas_registry after (record { x = 64; y = 32 }) first refl
      (omega arith) (omega arith) no_atlas adds
