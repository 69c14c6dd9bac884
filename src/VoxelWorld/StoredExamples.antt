-- ===== src/VoxelWorld/StoredExamples.antt =====
-- A commit of a small volume, with simple archives and the compression of CompressExamples.
use buildat.Base.{
  ℕ, suc, ◌*◌, ◌≤◌, ◌≡◌, ◌++◌, refl, ap, Option, none, some, [], ◌∷◌, true, if◌then◌else◌, ◌==◌,
  arith, get_or, set, length, take, drop, take-append_self, drop-append_self,
}
use buildat.Base.Int.{ℤ, pos, negsuc, pos_part, ◌+ℤ◌, tdiv, to_int16}
use buildat.Base.Map.{Map, lookup, insert, lookup-insert_self}
use buildat.Base.Keys.{Bytes, nat_eq}
use buildat.VoxelWorld.Coords.{Vec, Size, vec, vec_eq_instance, container_coord}
use buildat.VoxelWorld.Section.{ChunkBuffer, Section, unload_if_old, get_chunk_p}
use buildat.VoxelWorld.Index.{IsSized}
use buildat.VoxelWorld.World.{Engine, World, buffer_at, put_buffer, unload_buffers, unload_section}
use buildat.VoxelWorld.Volume.{
  RawVolume, Cereal, Zlib, serialize_volume_simple, serialize_volume_compressed, deserialize_volume,
}
use buildat.VoxelWorld.Volume.Laws.{
  IsCereal, IsRawVolume, deserialize_volume-serialize_volume, none_left, one_more,
}
use buildat.VoxelWorld.Volume.Decompress.{zlib_of, zlib_of-IsZlib}
use buildat.VoxelWorld.CompressExamples.{streams, Inflating, calls, longest, streams-IsStreams}
use buildat.VoxelWorld.Buffers.{returned, get_voxel}
use buildat.VoxelWorld.Commit.{
  send_voxel_registry_if_dirty, store_volume, announce, commit_volume, commit_chunk_buffer,
}
use buildat.VoxelWorld.Ready.{chunk_of, section_of, place}
use buildat.VoxelWorld.Commits.{IsEngine, commit_chunk_buffer-get_voxel}

abbrev read_begin : Bytes → Option Bytes
read_begin [] = none
read_begin (e ∷ b) = if e == 1 then some b else none

abbrev read_number : Bytes → Option (ℕ × Bytes)
read_number [] = none
read_number (n ∷ b) = some (n, b)

abbrev write_integer : ℤ → Bytes
write_integer (pos n) = 0 ∷ n ∷ []
write_integer (negsuc n) = 1 ∷ n ∷ []

abbrev read_integer : Bytes → Option (ℤ × Bytes)
read_integer [] = none
read_integer (s ∷ []) = none
read_integer (s ∷ n ∷ b) = some (if s == 0 then pos n else negsuc n, b)

abbrev read_string : Bytes → Option (Bytes × Bytes)
read_string [] = none
read_string (n ∷ b) = some (take n b, drop n b)

abbrev ar : Cereal
ar = record {
  begin = 1 ∷ [];
  read_begin = read_begin;
  write_uint8 = λ n. n ∷ [];
  read_uint8 = read_number;
  write_int32 = write_integer;
  read_int32 = read_integer;
  write_uint32 = λ n. n ∷ [];
  read_uint32 = read_number;
  write_string = λ s. length s ∷ s;
  read_string = read_string;
}

read_integer-write_integer : (n : ℤ) (b : Bytes) → read_integer (write_integer n ++ b) ≡ some (n, b)
read_integer-write_integer (pos n) b = refl
read_integer-write_integer (negsuc n) b = refl

ar-IsCereal : IsCereal ar
ar-IsCereal = record {
  begin = λ b. refl;
  uint8 = λ n b h. refl;
  int32 = λ n b h. read_integer-write_integer n b;
  uint32 = λ n b h. refl;
  string = λ s b. rw (take-append_self s b, drop-append_self s b) refl;
}

abbrev zlib : Zlib
zlib = zlib_of streams calls longest

-- The regions here have their lower corner at the origin.
abbrev data_size : Vec → Vec → ℕ
data_size lower upper = suc (pos_part upper.x) * suc (pos_part upper.y) * suc (pos_part upper.z)

abbrev or_empty : Option Bytes → Bytes
or_empty none = []
or_empty (some b) = b

abbrev or_null : Option (Option RawVolume) → Option RawVolume
or_null none = none
or_null (some v) = v

abbrev Scene : Type 0
Scene = Map ℕ (Option Bytes)

abbrev engine : Engine RawVolume ℕ Scene Bytes
engine = record {
  get_voxel_at = λ v p. get_or v.voxels (pos_part p.x) 0;
  set_voxel_at = λ p n v. record v { voxels = set v.voxels (pos_part p.x) n };
  get_node_id_at = λ n p. n;
  serialize_volume = λ v. or_empty (serialize_volume_compressed ar zlib data_size v);
  deserialize_volume = λ b. or_null (deserialize_volume ar zlib data_size b);
  get_node = λ s id. lookup id s;
  set_var = λ id b. insert id (some b);
  in_thread = λ p v. record v { voxels = set v.voxels 0 9 };
  in_scene = λ p id s. s;
  find_peers_that_know_node = λ s id. 1 ∷ [];
  address = λ p. pos_part p.x;
}

engine-IsEngine : IsEngine ar streams calls longest data_size engine
engine-IsEngine = record {
  serialize = λ v b h. ap or_empty h;
  deserialize = λ b v h. ap or_null h;
  get_node-set_var = λ scene id old stored h. lookup-insert_self id (some stored) scene;
  get_node-in_scene = λ scene p id other. refl;
}

-- Two voxels in a row.
abbrev volume : RawVolume
volume = record {
  lower = vec (pos 0) (pos 0) (pos 0);
  upper = vec (pos 1) (pos 0) (pos 0);
  voxels = 7 ∷ 5 ∷ [];
}

abbrev written_volume : RawVolume
written_volume = engine.in_thread (vec (pos 0) (pos 0) (pos 0)) volume

volume-IsRawVolume : IsRawVolume data_size written_volume
volume-IsRawVolume = record {
  lower = record { x = omega arith; y = omega arith; z = omega arith };
  upper = record { x = omega arith; y = omega arith; z = omega arith };
  size = refl;
  fits = one_more 9 (5 ∷ []) (omega arith) (one_more 5 [] (omega arith) none_left);
}

deserialize_volume-serialize_volume_example :
    (deserialize_volume ar zlib data_size (serialize_volume_simple ar zlib data_size written_volume)
      ≡ some (some written_volume))
    × ((b : Bytes) × (serialize_volume_compressed ar zlib data_size written_volume ≡ some b)
        × (deserialize_volume ar zlib data_size b ≡ some (some written_volume)))
deserialize_volume-serialize_volume_example =
    deserialize_volume-serialize_volume ar zlib data_size ar-IsCereal
      (zlib_of-IsZlib streams Inflating calls longest streams-IsStreams) written_volume
      volume-IsRawVolume

abbrev chunk_size : Size
chunk_size = record { w = 2; h = 1; d = 1 }

abbrev origin : Vec
origin = vec (pos 0) (pos 0) (pos 0)

abbrev dirty_buffer : ChunkBuffer RawVolume
dirty_buffer = record {
  chunk_p = origin;
  volume = some volume;
  dirty = true;
  last_accessed_us = 100;
}

abbrev section : Section RawVolume ℕ
section = record {
  section_p = origin;
  chunk_size = chunk_size;
  lower = origin;
  node_ids = 5;
  num_chunks = 1;
  w_chunks = 1;
  h_chunks = 1;
  d_chunks = 1;
  chunk_buffers = dirty_buffer ∷ [];
  loaded = true;
  generated = true;
}

section-IsSized : IsSized section
section-IsSized = record {
  w_pos = omega arith;
  h_pos = omega arith;
  d_pos = omega arith;
  count = omega arith;
}

abbrev world : World RawVolume ℕ Scene
world = record {
  chunk_size_voxels = chunk_size;
  section_size_chunks = record { w = 1; h = 1; d = 1 };
  buffer_unload_timeout = 5000;
  max_buffers_loaded = 50;
  sections = (origin, section) ∷ [];
  last_used_sections = [];
  sections_with_loaded_buffers = origin ∷ [];
  total_buffers_loaded = 1;
  total_buffers_dirty = 1;
  nodes_needing_physics_update = [];
  clients_initialized = 1 ∷ [];
  voxel_reg_dirty = true;
  scene = (5, some []) ∷ [];
  messages = [];
}

abbrev q : Vec
q = vec (pos 1) (pos 0) (pos 0)

world-in_chunk : chunk_of world q ≡ get_chunk_p section 0
unfolding container_coord tdiv ◌+ℤ◌ get_chunk_p
world-in_chunk = refl

world-in_section : section_of world q ≡ origin
unfolding container_coord tdiv ◌+ℤ◌ to_int16
world-in_section = refl

chunk_is : get_chunk_p section 0 ≡ origin
unfolding get_chunk_p ◌+ℤ◌
chunk_is = refl

unloaded_count :
    (unload_section 9000 5000 origin
      (commit_chunk_buffer engine origin 0 world)).total_buffers_loaded
    ≤ 50
unfolding unload_section unload_buffers unload_if_old commit_chunk_buffer buffer_at lookup
    get_chunk_p ◌+ℤ◌ commit_volume announce send_voxel_registry_if_dirty store_volume put_buffer
    insert
unloaded_count = omega arith

commit_chunk_buffer-get_voxel_example :
    (w' : World RawVolume ℕ Scene) × (get_voxel engine q 9500
        (unload_section 9000 5000 origin (commit_chunk_buffer engine origin 0 world))
      ≡ returned
          (engine.get_voxel_at (engine.in_thread (get_chunk_p section 0) volume) (place world q))
          w')
unfolding lookup
commit_chunk_buffer-get_voxel_example =
    commit_chunk_buffer-get_voxel ar streams calls longest data_size engine Inflating q origin 0
      9000 9500 5000 world section dirty_buffer volume [] ar-IsCereal streams-IsStreams
      engine-IsEngine volume-IsRawVolume section-IsSized (omega arith) refl refl refl refl (λ e. cc)
      refl (omega arith) world-in_chunk world-in_section unloaded_count
