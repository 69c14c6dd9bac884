-- ===== src/VoxelWorld/World.antt =====
-- The state of CInstance (builtin/voxelworld/voxelworld.cpp), and what it uses of the engine. A
-- pointer to a section is the position of the section, which is its key.
use buildat.Base.{
  ℕ, zero, suc, ◌+◌, ◌/◌, Option, none, some, List, [], ◌∷◌, ◌++◌, Bool, true, false, if◌then◌else◌,
  ltb, ◌==◌, length, get_elem?, set, drop,
}
use buildat.Base.Map.{Map, lookup, insert}
use buildat.VoxelWorld.Coords.{Vec, Size, vec_eq, vec_eq_instance}
use buildat.VoxelWorld.Section.{ChunkBuffer, Section, unload_if_old}

-- Volumes of voxels `V` and of node ids `N`, a scene `S`, and the stored form `D` of a volume.
-- `get_node` is `none` for a missing node, and else its variable "buildat_voxel_data", if that is a
-- buffer. `in_thread` and `in_scene` are the commit hooks of that name, one after the other.
-- `address` is where a section is stored.
pub record Engine (V : Type 0) (N : Type 0) (S : Type 0) (D : Type 0) : Type 0 where
  pub get_voxel_at : V → Vec → ℕ
  pub set_voxel_at : Vec → ℕ → V → V
  pub get_node_id_at : N → Vec → ℕ
  pub serialize_volume : V → D
  pub deserialize_volume : D → Option V
  pub get_node : S → ℕ → Option (Option D)
  pub set_var : ℕ → D → S → S
  pub in_thread : Vec → V → V
  pub in_scene : Vec → ℕ → S → S
  pub find_peers_that_know_node : S → ℕ → List ℕ
  pub address : Vec → ℕ

-- What goes to other modules: packets to peers, a node to synchronize, an event.
pub data Message : Type 0 where
  voxel_registry : ℕ → Message
  sync_node : ℕ → Message
  node_volume_updated : ℕ → ℕ → Message
  volume_event : ℕ → Vec → Message

pub record World (V : Type 0) (N : Type 0) (S : Type 0) : Type 0 where
  pub chunk_size_voxels : Size
  pub section_size_chunks : Size
  pub buffer_unload_timeout : ℕ
  pub max_buffers_loaded : ℕ
  pub sections : Map Vec (Section V N)
  pub last_used_sections : List Vec
  pub sections_with_loaded_buffers : List Vec
  pub total_buffers_loaded : ℕ
  pub total_buffers_dirty : ℕ
  pub nodes_needing_physics_update : List ℕ
  pub clients_initialized : List ℕ
  pub voxel_reg_dirty : Bool
  pub scene : S
  pub messages : List Message

abbrev pub contains_vec : Vec → List Vec → Bool
contains_vec p [] = false
contains_vec p (q ∷ qs) = if vec_eq q p then true else contains_vec p qs

abbrev pub last_two : List Vec → List Vec
last_two l = if ltb 2 (length l) then drop 1 l else l

-- The buffers of a section after a round, and how many are loaded and dirty.
pub record Kept (V : Type 0) : Type 0 where
  pub buffers : List (ChunkBuffer V)
  pub num_loaded : ℕ
  pub num_dirty : ℕ

module _ {V : Type 0} where
  abbrev pub keep_buffer : ChunkBuffer V → Option (ChunkBuffer V) → Kept V → Kept V
  keep_buffer b none k = record {
    buffers = b ∷ k.buffers;
    num_loaded = suc k.num_loaded;
    num_dirty = if b.dirty then suc k.num_dirty else k.num_dirty;
  }
  keep_buffer b (some unloaded) k = record k { buffers = unloaded ∷ k.buffers }

  unfoldable pub unload_buffers : ℕ → ℕ → List (ChunkBuffer V) → Kept V
  unload_buffers now timeout [] = record { buffers = []; num_loaded = 0; num_dirty = 0 }
  unload_buffers now timeout (b ∷ bs) =
      keep_buffer b (unload_if_old now timeout b) (unload_buffers now timeout bs)

-- mark_node_for_physics_update(): a sorted list in descending order.
abbrev pub insert_node : ℕ → List ℕ → List ℕ
insert_node id [] = id ∷ []
insert_node id (n ∷ ns) =
    let later = n ∷ insert_node id ns in
    if ltb id n then later else if n == id then id ∷ ns else id ∷ n ∷ ns

module _ {V N S : Type 0} where
  -- get_section(): whether the section exists.
  unfoldable pub get_section : Vec → World V N S → Bool × World V N S
  get_section section_p w =
      if contains_vec section_p w.last_used_sections
      then (true, w)
      else elim (lookup section_p w.sections) [
        | none ↦ (false, w)
        | some s ↦ (
          true,
          record w { last_used_sections = last_two (w.last_used_sections ++ section_p ∷ []) },
        )
      ]

  unfoldable pub buffer_at : Vec → ℕ → World V N S → Option (ChunkBuffer V)
  buffer_at section_p i w = elim (lookup section_p w.sections) [
    | none ↦ none
    | some s ↦ get_elem? s.chunk_buffers i
  ]

  -- A reference to a section is written through.
  abbrev pub put_section : Vec → Section V N → World V N S → World V N S
  put_section section_p s w = record w { sections = insert section_p s w.sections }

  unfoldable pub put_buffer : Vec → ℕ → ChunkBuffer V → World V N S → World V N S
  put_buffer section_p i b w = elim (lookup section_p w.sections) [
    | none ↦ w
    | some s ↦ put_section section_p (record s { chunk_buffers = set s.chunk_buffers i b }) w
  ]

  unfoldable pub unload_section : ℕ → ℕ → Vec → World V N S → World V N S
  unload_section now timeout section_p w = elim (lookup section_p w.sections) [
    | none ↦ w
    | some s ↦
        let k = unload_buffers now timeout s.chunk_buffers in
        record w {
          sections = insert section_p (record s { chunk_buffers = k.buffers }) w.sections;
          total_buffers_loaded = w.total_buffers_loaded + k.num_loaded;
          total_buffers_dirty = w.total_buffers_dirty + k.num_dirty;
          sections_with_loaded_buffers =
              if ltb 0 k.num_loaded
              then w.sections_with_loaded_buffers ++ section_p ∷ []
              else w.sections_with_loaded_buffers;
        }
  ]

  unfoldable pub unload_sections : ℕ → ℕ → List Vec → World V N S → World V N S
  unload_sections now timeout [] w = w
  unload_sections now timeout (p ∷ ps) w =
      unload_sections now timeout ps (unload_section now timeout p w)

  -- unload_old_buffers() but for its call of itself.
  unfoldable pub unload_round : ℕ → ℕ → World V N S → World V N S
  unload_round now timeout w =
      unload_sections now timeout w.sections_with_loaded_buffers (record w {
        sections_with_loaded_buffers = [];
        total_buffers_loaded = 0;
        total_buffers_dirty = 0;
      })

  -- With fuel for the calls; the timeout and one more is enough.
  unfoldable pub unload_old_buffers : ℕ → ℕ → ℕ → ℕ → World V N S → World V N S
  unload_old_buffers zero now timeout max_buffers w = w
  unload_old_buffers (suc fuel) now timeout max_buffers w =
      let t = unload_round now timeout w in
      elim (ltb 1000 timeout) [
        | false ↦ t
        | true ↦ elim (ltb max_buffers t.total_buffers_loaded) [
          | false ↦ t
          | true ↦ unload_old_buffers fuel now (timeout / 4) max_buffers t
        ]
      ]

  unfoldable pub maintain_maximum_buffer_limit : ℕ → World V N S → World V N S
  maintain_maximum_buffer_limit now w =
      if ltb w.max_buffers_loaded w.total_buffers_loaded
      then unload_old_buffers (suc w.buffer_unload_timeout) now w.buffer_unload_timeout
          w.max_buffers_loaded w
      else w
