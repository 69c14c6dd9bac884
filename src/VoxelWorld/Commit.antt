-- ===== src/VoxelWorld/Commit.antt =====
-- commit() and commit_chunk_buffer() (builtin/voxelworld/voxelworld.cpp).
use buildat.Base.{
  ℕ, zero, suc, none, some, List, [], ◌∷◌, ◌++◌, map, Bool, true, false, decrement, if◌then◌else◌,
  ◌==◌, length,
}
use buildat.Base.Map.{lookup}
use buildat.VoxelWorld.Coords.{Vec, vec_eq_instance}
use buildat.VoxelWorld.Section.{ChunkBuffer, get_chunk_p}
use buildat.VoxelWorld.World.{
  Engine, World, Message, voxel_registry, sync_node, node_volume_updated, volume_event, buffer_at,
  put_buffer, insert_node,
}

abbrev pub contains_id : ℕ → List ℕ → Bool
contains_id id [] = false
contains_id id (n ∷ ns) = if n == id then true else contains_id id ns

-- One packet for each of the peers that is initialized.
abbrev pub volume_packets : ℕ → List ℕ → List ℕ → List Message
volume_packets node_id clients [] = []
volume_packets node_id clients (peer ∷ peers) =
    let rest = volume_packets node_id clients peers in
    if contains_id peer clients then node_volume_updated peer node_id ∷ rest else rest

module _ {V N S D : Type 0} (engine : Engine V N S D) where
  unfoldable pub send_voxel_registry_if_dirty : World V N S → World V N S
  send_voxel_registry_if_dirty w = record w {
    voxel_reg_dirty = false;
    messages =
        if w.voxel_reg_dirty
        then w.messages ++ map voxel_registry w.clients_initialized
        else w.messages;
  }

  -- Stores the volume in the node, if there is one with a volume.
  unfoldable pub store_volume : Vec → ℕ → V → World V N S → World V N S
  store_volume chunk_p node_id v w = elim (engine.get_node w.scene node_id) [
    | none ↦ w
    | some none ↦ w
    | some (some old) ↦ record w {
      scene =
          engine.in_scene chunk_p node_id
            (engine.set_var node_id (engine.serialize_volume v) w.scene);
    }
  ]

  -- The packets, the mark and the event that follow.
  unfoldable pub announce : Vec → ℕ → World V N S → World V N S
  announce chunk_p node_id w = record w {
    messages =
        w.messages
        ++ sync_node node_id
          ∷ volume_packets node_id w.clients_initialized
              (engine.find_peers_that_know_node w.scene node_id)
        ++ volume_event node_id chunk_p ∷ [];
    nodes_needing_physics_update = insert_node node_id w.nodes_needing_physics_update;
    total_buffers_dirty = decrement w.total_buffers_dirty;
  }

  unfoldable pub commit_volume : Vec → ℕ → ChunkBuffer V → Vec → ℕ → V → World V N S → World V N S
  commit_volume section_p i b chunk_p node_id v w = announce chunk_p node_id (
      send_voxel_registry_if_dirty (
        store_volume chunk_p node_id v
          (put_buffer section_p i (record b { volume = some v; dirty = false }) w)))

  unfoldable pub commit_chunk_buffer : Vec → ℕ → World V N S → World V N S
  commit_chunk_buffer section_p i w = elim (lookup section_p w.sections) [
    | none ↦ w
    | some s ↦ elim (buffer_at section_p i w) [
      | none ↦ w
      | some b ↦ elim b.dirty [
        | false ↦ w
        | true ↦
            let chunk_p = get_chunk_p s i in
            let node_id = engine.get_node_id_at s.node_ids chunk_p in
            if node_id == 0 then w else elim b.volume [
              | none ↦ w
              | some v ↦ commit_volume section_p i b chunk_p node_id (engine.in_thread chunk_p v) w
            ]
      ]
    ]
  ]

  -- The chunks of a section, from `i` on.
  unfoldable pub commit_chunks : Vec → ℕ → ℕ → World V N S → World V N S
  commit_chunks section_p zero i w = w
  commit_chunks section_p (suc left) i w =
      commit_chunks section_p left (suc i) (commit_chunk_buffer section_p i w)

  unfoldable pub commit_section : Vec → World V N S → World V N S
  commit_section section_p w = elim (lookup section_p w.sections) [
    | none ↦ w
    | some s ↦ commit_chunks section_p (length s.chunk_buffers) 0 w
  ]

  unfoldable pub commit_sections : List Vec → World V N S → World V N S
  commit_sections [] w = w
  commit_sections (p ∷ ps) w = commit_sections ps (commit_section p w)

  unfoldable pub commit : World V N S → World V N S
  commit w = commit_sections w.sections_with_loaded_buffers w
