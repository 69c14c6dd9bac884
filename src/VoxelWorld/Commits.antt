-- ===== src/VoxelWorld/Commits.antt =====
-- What a commit keeps (commit_chunk_buffer() of builtin/voxelworld/voxelworld.cpp).
use buildat.Base.{
  Option, ℕ, ◌+◌, ◌≤◌, ◌<◌, ◌≡◌, ◌≢◌, refl, sym, ap, ◌∙◌, some, inr, true, false, arith, get_elem?,
  get_elem?-set_self,
}
use mathlib.Core.Path.{subst}
use buildat.Base.Keys.{Bytes}
use buildat.Base.Map.{lookup, lookup-insert_self}
use buildat.VoxelWorld.Coords.{
  Vec, container_vec, container_coord16, voxel_in_chunk, vec_eq_instance,
}
use buildat.VoxelWorld.Volume.{
  RawVolume, Cereal, Zlib, serialize_volume_compressed, deserialize_volume,
}
use buildat.VoxelWorld.Volume.Laws.{
  IsCereal, IsRawVolume, deserialize_volume-serialize_volume_compressed,
}
use buildat.VoxelWorld.Volume.Compress.{Streams, IsStreams}
use buildat.VoxelWorld.Volume.Decompress.{zlib_of, zlib_of-IsZlib}
use buildat.VoxelWorld.Section.{ChunkBuffer, Section, get_chunk_i, get_chunk_p}
use buildat.VoxelWorld.World.{Engine, World, buffer_at, put_section, unload_buffers, unload_section}
use buildat.VoxelWorld.Index.{IsSized, get_chunk_i-get_chunk_p_iff}
use buildat.VoxelWorld.Buffers.{returned, get_voxel}
use buildat.VoxelWorld.Commit.{
  send_voxel_registry_if_dirty, store_volume, announce, commit_volume, commit_chunk_buffer,
}
use buildat.VoxelWorld.Sweep.{unloaded, after_old, get_elem?-unload_buffers}
use buildat.VoxelWorld.Ready.{
  get_elem?-lt, with_buffer, get_chunk_i-with_buffer, put_buffer_there, IsReady, chunk_of,
  section_of, place,
}
use buildat.VoxelWorld.Access.{get_voxel-IsReady}

module _ {Z N S : Type 0} (ar : Cereal) (zs : Streams Z) (calls : Bytes → ℕ → ℕ)
    (longest : Bytes → ℕ) (data_size : Vec → Vec → ℕ) (engine : Engine RawVolume N S Bytes) where
  -- compress_zlib() and decompress_zlib() over the calls of zlib.
  abbrev zlib : Zlib
  zlib = zlib_of zs calls longest

  -- How the engine behaves: its volumes are stored and read by the functions of voxel_volume.cpp,
  -- where these do not throw, a node keeps what was stored in it, and the commit hooks for the
  -- scene leave the stored volumes.
  pub record IsEngine : Type 0 where
    pub serialize :
        (v : RawVolume) (b : Bytes)
        → serialize_volume_compressed ar zlib data_size v ≡ some b
        → engine.serialize_volume v ≡ b
    pub deserialize :
        (b : Bytes) (v : Option RawVolume)
        → deserialize_volume ar zlib data_size b ≡ some v
        → engine.deserialize_volume b ≡ v
    pub get_node-set_var :
        (scene : S) (id : ℕ) (old stored : Bytes)
        → engine.get_node scene id ≡ some (some old)
        → engine.get_node (engine.set_var id stored scene) id ≡ some (some stored)
    pub get_node-in_scene :
        (scene : S) (chunk_p : Vec) (id other : ℕ)
        → engine.get_node (engine.in_scene chunk_p id scene) other ≡ engine.get_node scene other

  abbrev pub node_of : Section RawVolume N → ℕ → ℕ
  node_of s i = engine.get_node_id_at s.node_ids (get_chunk_p s i)

  abbrev committed : ChunkBuffer RawVolume → RawVolume → ChunkBuffer RawVolume
  committed b v = record b { volume = some v; dirty = false }

  record IsCommitted (w : World RawVolume N S) (section_p : Vec) (s : Section RawVolume N) (i : ℕ)
      (b : ChunkBuffer RawVolume) (v : RawVolume) (w' : World RawVolume N S) : Type 0 where
    section : lookup section_p w'.sections ≡ some (with_buffer s i (committed b v))
    stored : engine.get_node w'.scene (node_of s i) ≡ some (some (engine.serialize_volume v))
    limit : w'.max_buffers_loaded ≡ w.max_buffers_loaded
    chunk_size : w'.chunk_size_voxels ≡ w.chunk_size_voxels
    section_size : w'.section_size_chunks ≡ w.section_size_chunks

  commit_step :
      (section_p : Vec) (i : ℕ) (w : World RawVolume N S) (s : Section RawVolume N)
      (b : ChunkBuffer RawVolume) (v : RawVolume)
      → lookup section_p w.sections ≡ some s
      → get_elem? s.chunk_buffers i ≡ some b
      → b.dirty ≡ true
      → b.volume ≡ some v
      → node_of s i ≢ 0
      → commit_chunk_buffer engine section_p i w
        ≡ commit_volume engine section_p i b
            (get_chunk_p s i)
            (node_of s i)
            (engine.in_thread (get_chunk_p s i) v)
            w
  unfolding commit_chunk_buffer buffer_at
  commit_step section_p i w s b v there at dirty full ne =
      ground (arith, there, at, dirty, full, ne)

  store_volume_there :
      (chunk_p : Vec) (node_id : ℕ) (v : RawVolume) (w : World RawVolume N S) (old : Bytes)
      → engine.get_node w.scene node_id ≡ some (some old)
      → store_volume engine chunk_p node_id v w ≡ record w {
        scene =
            engine.in_scene chunk_p node_id
              (engine.set_var node_id (engine.serialize_volume v) w.scene);
      }
  unfolding store_volume
  store_volume_there chunk_p node_id v w old h = rw (h, store_volume) refl

  commit_volume-IsCommitted :
      (section_p : Vec) (i : ℕ) (w : World RawVolume N S) (s : Section RawVolume N)
      (b : ChunkBuffer RawVolume) (v : RawVolume) (old : Bytes)
      → IsEngine
      → lookup section_p w.sections ≡ some s
      → engine.get_node w.scene (node_of s i) ≡ some (some old)
      → IsCommitted w section_p s i b v
          (commit_volume engine section_p i b (get_chunk_p s i) (node_of s i) v w)
  unfolding commit_volume announce send_voxel_registry_if_dirty
  commit_volume-IsCommitted section_p i w s b v old laws there node =
      rw
        (
          put_buffer_there section_p i s (committed b v) w there,
          store_volume_there (get_chunk_p s i) (node_of s i) v
              (put_section section_p (with_buffer s i (committed b v)) w) old node,
        )
        (record {
          section = lookup-insert_self section_p (with_buffer s i (committed b v)) w.sections;
          stored =
              laws.get_node-in_scene
                (engine.set_var (node_of s i) (engine.serialize_volume v) w.scene) (get_chunk_p s i)
                (node_of s i) (node_of s i)
              ∙ laws.get_node-set_var w.scene (node_of s i) old (engine.serialize_volume v) node;
          limit = refl;
          chunk_size = refl;
          section_size = refl;
        })

  -- A section whose buffers were gone through.
  abbrev swept : ℕ → ℕ → Section RawVolume N → Section RawVolume N
  swept now timeout s = record s {
    chunk_buffers = (unload_buffers now timeout s.chunk_buffers).buffers;
  }

  get_chunk_i-swept :
      (now timeout : ℕ) (s : Section RawVolume N) (p : Vec)
      → get_chunk_i (swept now timeout s) p ≡ get_chunk_i s p
  unfolding get_chunk_i
  get_chunk_i-swept now timeout s p = refl

  record IsSwept (w : World RawVolume N S) (section_p : Vec) (s : Section RawVolume N)
      (w' : World RawVolume N S) : Type 0 where
    section : lookup section_p w'.sections ≡ some s
    scene : w'.scene ≡ w.scene
    limit : w'.max_buffers_loaded ≡ w.max_buffers_loaded
    chunk_size : w'.chunk_size_voxels ≡ w.chunk_size_voxels
    section_size : w'.section_size_chunks ≡ w.section_size_chunks

  unload_section-IsSwept :
      (now timeout : ℕ) (section_p : Vec) (s : Section RawVolume N) (w : World RawVolume N S)
      → lookup section_p w.sections ≡ some s
      → IsSwept w section_p (swept now timeout s) (unload_section now timeout section_p w)
  unfolding unload_section
  unload_section-IsSwept now timeout section_p s w there =
      rw (there, unload_section)
        (record {
          section = lookup-insert_self section_p (swept now timeout s) w.sections;
          scene = refl;
          limit = refl;
          chunk_size = refl;
          section_size = refl;
        })

  -- A volume is read back from what the engine stores of it.
  deserialize-serialize :
      (Inflating : Z → Bytes → Bytes → Type 0) (v : RawVolume)
      → IsCereal ar
      → IsStreams zs Inflating calls longest
      → IsEngine
      → IsRawVolume data_size v
      → engine.deserialize_volume (engine.serialize_volume v) ≡ some v
  deserialize-serialize Inflating v is_cereal is_streams laws raw =
      let (b, stored, read) =
        deserialize_volume-serialize_volume_compressed ar zlib data_size is_cereal
          (zlib_of-IsZlib zs Inflating calls longest is_streams) v raw in
      ap engine.deserialize_volume (laws.serialize v b stored) ∙ laws.deserialize b (some v) read

  -- What commit_chunk_buffer() has stored is what is read after the buffer was unloaded: of a chunk
  -- with a node, whose buffer is dirty with the volume `v`, each voxel then reads as in the volume
  -- that the commit hooks made of `v`. The volume is stored in format 3 and read by the functions of
  -- voxel_volume.cpp and compress.cpp, over cereal's archives and zlib's calls; it has the voxels of
  -- its region, and its corners and voxels have 32 bits.
  pub commit_chunk_buffer-get_voxel :
      (Inflating : Z → Bytes → Bytes → Type 0) (q section_p : Vec) (i now later timeout : ℕ)
      (w : World RawVolume N S) (s : Section RawVolume N) (b : ChunkBuffer RawVolume)
      (v : RawVolume) (old : Bytes)
      → IsCereal ar
      → IsStreams zs Inflating calls longest
      → IsEngine
      → IsRawVolume data_size (engine.in_thread (get_chunk_p s i) v)
      → IsSized s
      → i < s.num_chunks
      → lookup section_p w.sections ≡ some s
      → get_elem? s.chunk_buffers i ≡ some b
      → b.dirty ≡ true
      → b.volume ≡ some v
      → node_of s i ≢ 0
      → engine.get_node w.scene (node_of s i) ≡ some (some old)
      → b.last_accessed_us + timeout ≤ now
      → chunk_of w q ≡ get_chunk_p s i
      → section_of w q ≡ section_p
      → (unload_section now timeout section_p
          (commit_chunk_buffer engine section_p i w)).total_buffers_loaded
        ≤ w.max_buffers_loaded
      → (w' : World RawVolume N S) × (get_voxel engine q later
            (unload_section now timeout section_p (commit_chunk_buffer engine section_p i w))
          ≡ returned (engine.get_voxel_at (engine.in_thread (get_chunk_p s i) v) (place w q)) w')
  commit_chunk_buffer-get_voxel Inflating q section_p i now later timeout w s b v old is_cereal
        is_streams laws raw sized in_range there at dirty full ne node aged chunk keys few =
      let v' = engine.in_thread (get_chunk_p s i) v in
      let c = commit_volume-IsCommitted section_p i w s b v' old laws there node in
      let c' : IsCommitted w section_p s i b v' (commit_chunk_buffer engine section_p i w) =
        subst (IsCommitted w section_p s i b v')
          (sym (commit_step section_p i w s b v there at dirty full ne)) c in
      let s1 = with_buffer s i (committed b v') in
      let u =
        unload_section-IsSwept now timeout section_p s1 (commit_chunk_buffer engine section_p i w)
          c'.section in
      let chunk_size = u.chunk_size ∙ c'.chunk_size in
      let section_size = u.section_size ∙ c'.section_size in
      let wu = unload_section now timeout section_p (commit_chunk_buffer engine section_p i w) in
      let b' = unloaded (committed b v') in
      let ready : IsReady engine wu section_p (get_chunk_p s i) i (swept now timeout s1) b' v' =
        record {
          section = u.section;
          index =
              get_chunk_i-swept now timeout s1 (get_chunk_p s i)
              ∙ get_chunk_i-with_buffer s i (committed b v') (get_chunk_p s i)
              ∙ ((get_chunk_i-get_chunk_p_iff s (get_chunk_p s i) i sized in_range).1 refl).1;
          buffer =
              get_elem?-unload_buffers now timeout s1.chunk_buffers i (committed b v') (
                get_elem?-set_self s.chunk_buffers i (committed b v')
                  (get_elem?-lt s.chunk_buffers i b at))
              ∙ ap some (after_old now timeout (committed b v') v' refl aged);
          volume = inr (
            refl,
            ne,
            (
              engine.serialize_volume v',
              ap (λ t. engine.get_node t (node_of s i)) u.scene ∙ c'.stored,
              deserialize-serialize Inflating v' is_cereal is_streams laws raw,
            ),
          );
        } in
      let chunk' : chunk_of wu q ≡ get_chunk_p s i = ap (container_vec q) chunk_size ∙ chunk in
      let keys' : section_of wu q ≡ section_p =
        ap (λ c. container_coord16 (container_vec q c) wu.section_size_chunks) chunk_size
        ∙ ap (container_coord16 (chunk_of w q)) section_size
        ∙ keys in
      let (w', e) =
        get_voxel-IsReady engine q later wu i (swept now timeout s1) b' v'
          (subst (λ p. IsReady engine wu p (chunk_of wu q) i (swept now timeout s1) b' v')
            (sym keys')
            (subst (λ p. IsReady engine wu section_p p i (swept now timeout s1) b' v') (sym chunk')
              ready))
          (omega (arith, few, u.limit, c'.limit)) in
      (
        w',
        e
            ∙ ap
                (λ size.
                  returned (engine.get_voxel_at v' (voxel_in_chunk q (container_vec q size) size))
                    w')
                chunk_size,
      )
