-- ===== src/VoxelWorld/Examples.antt =====
-- The voxel world on a small world and an engine of maps.
use buildat.Base.{
  ℕ, ◌≡◌, ◌↔◌, refl, Option, none, some, [], ◌∷◌, inl, inr, Bool, true, false, if◌then◌else◌, arith,
  replicate,
}
use buildat.Base.Int.{pos, negsuc, pos_part, ◌+ℤ◌, ◌-ℤ◌, ◌*ℤ◌, tdiv, to_int16}
use buildat.Base.Map.{Map, lookup, insert, lookup-insert}
use buildat.Base.Keys.{nat_eq}
use buildat.VoxelWorld.Coords.{
  Vec, Size, vec, vec_eq, vec_eq_instance, container_coord, container_vec, get_chunk_region_voxels,
}
use buildat.VoxelWorld.Containers.{Contains, get_chunk_region_voxels-container_vec}
use buildat.VoxelWorld.Section.{ChunkBuffer, Section, chunk_buffer, get_chunk_i, get_chunk_p}
use buildat.VoxelWorld.Index.{IsSized, contained_chunks, get_chunk_i-get_chunk_p_iff}
use buildat.VoxelWorld.World.{Engine, World, buffer_at, maintain_maximum_buffer_limit}
use buildat.VoxelWorld.Buffers.{returned, get_voxel, set_voxel}
use buildat.VoxelWorld.Unload.{maintain_maximum_buffer_limit-unloaded}
use buildat.VoxelWorld.Ready.{IsReady, chunk_of, section_of}
use buildat.VoxelWorld.Chunks.{IsVolume, IsReadable}
use buildat.VoxelWorld.Voxels.{set_voxel-get_voxel}

abbrev Volume : Type 0
Volume = Map Vec ℕ

abbrev or_zero : Option ℕ → ℕ
or_zero none = 0
or_zero (some n) = n

abbrev inside : Volume → Vec → Bool
inside v p = true

abbrev engine : Engine Volume ℕ (Map ℕ (Option Volume)) Volume
engine = record {
  get_voxel_at = λ v p. or_zero (lookup p v);
  set_voxel_at = insert;
  get_node_id_at = λ n p. n;
  serialize_volume = λ v. v;
  deserialize_volume = some;
  get_node = λ s id. lookup id s;
  set_var = λ id v. insert id (some v);
  in_thread = λ p v. insert p 9 v;
  in_scene = λ p id s. s;
  find_peers_that_know_node = λ s id. 1 ∷ [];
  address = λ p. pos_part p.x;
}

engine-IsVolume : IsVolume engine inside
engine-IsVolume = record { get-set = λ v a b x in_a in_b. ground (arith, lookup-insert a b x v) }

abbrev chunk_size : Size
chunk_size = record { w = 32; h = 32; d = 32 }

abbrev section_size : Size
section_size = record { w = 2; h = 2; d = 2 }

-- The voxel (-1, 40, 5) is in the chunk (-1, 1, 0).
get_chunk_region_voxels-container_vec_example :
    Contains
      (get_chunk_region_voxels chunk_size (vec (negsuc 0) (pos 1) (pos 0)))
      (vec (negsuc 0) (pos 40) (pos 5))
    ↔ (vec (negsuc 0) (pos 1) (pos 0) ≡ container_vec (vec (negsuc 0) (pos 40) (pos 5)) chunk_size)
get_chunk_region_voxels-container_vec_example =
    get_chunk_region_voxels-container_vec chunk_size (vec (negsuc 0) (pos 1) (pos 0))
      (vec (negsuc 0) (pos 40) (pos 5)) (omega arith)

abbrev volume : Volume
volume = (vec (pos 1) (pos 2) (pos 3), 7) ∷ []

-- The first chunk is loaded and dirty.
abbrev dirty_buffer : ChunkBuffer Volume
dirty_buffer = record {
  chunk_p = vec (pos 0) (pos 0) (pos 0);
  volume = some volume;
  dirty = true;
  last_accessed_us = 100;
}

abbrev section : Section Volume ℕ
section = record {
  section_p = vec (pos 0) (pos 0) (pos 0);
  chunk_size = chunk_size;
  lower = vec (pos 0) (pos 0) (pos 0);
  node_ids = 5;
  num_chunks = 8;
  w_chunks = 2;
  h_chunks = 2;
  d_chunks = 2;
  chunk_buffers = dirty_buffer ∷ replicate 7 chunk_buffer;
  loaded = true;
  generated = true;
}

section-IsSized : IsSized section
section-IsSized = record {
  w_pos = omega arith;
  h_pos = omega arith;
  d_pos = omega arith;
  count = omega arith;
}

get_chunk_i-get_chunk_p_iff_example :
    (Contains (contained_chunks section) (vec (pos 1) (pos 0) (pos 1))
      × (get_chunk_i section (vec (pos 1) (pos 0) (pos 1)) ≡ some 5))
    ↔ (vec (pos 1) (pos 0) (pos 1) ≡ get_chunk_p section 5)
get_chunk_i-get_chunk_p_iff_example =
    get_chunk_i-get_chunk_p_iff section (vec (pos 1) (pos 0) (pos 1)) 5 section-IsSized
      (omega arith)

abbrev world_with : ℕ → World Volume ℕ (Map ℕ (Option Volume))
world_with max = record {
  chunk_size_voxels = chunk_size;
  section_size_chunks = section_size;
  buffer_unload_timeout = 5000;
  max_buffers_loaded = max;
  sections = (vec (pos 0) (pos 0) (pos 0), section) ∷ [];
  last_used_sections = [];
  sections_with_loaded_buffers = vec (pos 0) (pos 0) (pos 0) ∷ [];
  total_buffers_loaded = 1;
  total_buffers_dirty = 1;
  nodes_needing_physics_update = [];
  clients_initialized = 1 ∷ [];
  voxel_reg_dirty = true;
  scene = (5, some []) ∷ [];
  messages = [];
}

abbrev p1 : Vec
p1 = vec (pos 1) (pos 2) (pos 3)

abbrev p3 : Vec
p3 = vec (pos 40) (pos 2) (pos 3)

world-IsReady :
    IsReady engine
      (world_with 50)
      (section_of (world_with 50) p1)
      (chunk_of (world_with 50) p1)
      0
      section
      dirty_buffer
      volume
unfolding lookup container_coord tdiv ◌+ℤ◌ ◌-ℤ◌ ◌*ℤ◌ to_int16 get_chunk_i
world-IsReady = record { section = refl; index = refl; buffer = refl; volume = inl refl }

p1-IsReadable : IsReadable engine inside (world_with 50) p1 0 section dirty_buffer volume
unfolding container_coord tdiv ◌+ℤ◌ ◌-ℤ◌ ◌*ℤ◌
p1-IsReadable = record {
  ready = world-IsReady;
  sized = section-IsSized;
  in_range = omega arith;
  contained = omega arith;
  within = refl;
}

-- In the other chunk, which is read from its node.
p3-IsReadable : IsReadable engine inside (world_with 50) p3 1 section chunk_buffer []
unfolding lookup container_coord tdiv ◌+ℤ◌ ◌-ℤ◌ ◌*ℤ◌ to_int16 get_chunk_i
p3-IsReadable = record {
  ready = record {
    section = refl;
    index = refl;
    buffer = refl;
    volume = inr (refl, λ e. cc, ([], refl, refl));
  };
  sized = section-IsSized;
  in_range = omega arith;
  contained = omega arith;
  within = refl;
}

set_voxel-get_voxel_example :
    (y : ℕ) × (before written after : World Volume ℕ (Map ℕ (Option Volume))) × (get_voxel engine p3
        2000
        (world_with 50)
      ≡ returned y before)
    × (set_voxel engine p1 3 1000 (world_with 50) ≡ returned tt written)
    × (get_voxel engine p3 2000 written ≡ returned (if vec_eq p1 p3 then 3 else y) after)
set_voxel-get_voxel_example =
    set_voxel-get_voxel engine inside p1 p3 3 1000 2000 (world_with 50) 0 1 section section
      dirty_buffer chunk_buffer volume [] engine-IsVolume p1-IsReadable p3-IsReadable (omega arith)

maintain_maximum_buffer_limit-unloaded_example :
    (buffer_at (vec (pos 0) (pos 0) (pos 0)) 0 (maintain_maximum_buffer_limit 9000 (world_with 0))
      ≡ some (record dirty_buffer { volume = none; dirty = false }))
    × ((maintain_maximum_buffer_limit 9000 (world_with 0)).scene ≡ (world_with 0).scene)
    × ((maintain_maximum_buffer_limit 9000 (world_with 0)).messages ≡ (world_with 0).messages)
unfolding buffer_at lookup
maintain_maximum_buffer_limit-unloaded_example =
    maintain_maximum_buffer_limit-unloaded 9000 (vec (pos 0) (pos 0) (pos 0)) 0 dirty_buffer volume
      (world_with 0) (omega arith) refl refl refl (omega arith)
