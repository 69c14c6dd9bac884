-- ===== src/VoxelWorld/Buffers.antt =====
-- get_buffer(), set_voxel() and get_voxel() (builtin/voxelworld/voxelworld.cpp). The clock stands
-- still during one operation.
use buildat.Base.{
  ℕ, suc, none, some, List, [], ◌∷◌, Bool, true, false, if◌then◌else◌, ltb, ◌==◌, get_elem?,
}
use buildat.Base.Map.{lookup}
use buildat.VoxelWorld.Coords.{
  Vec, container_vec, container_coord16, vec_eq_instance, voxel_in_chunk,
}
use buildat.VoxelWorld.Section.{ChunkBuffer, Section, timer_reset, get_chunk_i}
use buildat.VoxelWorld.World.{
  Engine, World, get_section, buffer_at, put_buffer, maintain_maximum_buffer_limit,
}

-- What an operation returns, or that it throws, and the world afterwards.
pub data Outcome (A : Type 0) (W : Type 0) : Type 0 where
  returned : A → W → Outcome A W
  thrown : W → Outcome A W

-- VOXELTYPEID_UNDEFINED
abbrev pub undefined_voxel : ℕ
undefined_voxel = 0

module _ {V N S D : Type 0} (engine : Engine V N S D) where
  -- `std::lower_bound` in descending order of the addresses, and insertion unless it is there.
  abbrev pub insert_section : Vec → List Vec → List Vec
  insert_section p [] = p ∷ []
  insert_section p (q ∷ qs) =
      let later = q ∷ insert_section p qs in
      if ltb (engine.address p) (engine.address q)
      then later
      else if engine.address q == engine.address p
      then q ∷ qs
      else p ∷ q ∷ qs

  abbrev pub count_loaded : World V N S → World V N S
  count_loaded w = record w { total_buffers_loaded = suc w.total_buffers_loaded }

  -- The part of get_buffer() that reads the volume from the node.
  unfoldable pub load_buffer : Vec → ℕ → ChunkBuffer V → ℕ → World V N S → Outcome ℕ (World V N S)
  load_buffer section_p i b node_id w = elim (engine.get_node w.scene node_id) [
    | none ↦ returned i (count_loaded (put_buffer section_p i b w))
    | some none ↦ thrown (put_buffer section_p i b w)
    | some (some stored) ↦ returned i (
        count_loaded
          (put_buffer section_p i (record b { volume = engine.deserialize_volume stored }) w))
  ]

  unfoldable pub get_buffer_of :
      Vec → ℕ → Section V N → ChunkBuffer V → Vec → World V N S → Outcome ℕ (World V N S)
  get_buffer_of section_p i s b chunk_p w = elim b.volume [
    | some v ↦ returned i (put_buffer section_p i b w)
    | none ↦
        let node_id = engine.get_node_id_at s.node_ids chunk_p in
        if node_id == 0
        then returned i (put_buffer section_p i b w)
        else load_buffer section_p i b node_id w
  ]

  -- get_buffer(): which buffer of the section. An index out of the buffers is undefined behaviour.
  unfoldable pub get_buffer : Vec → Vec → ℕ → World V N S → Outcome ℕ (World V N S)
  get_buffer section_p chunk_p now w = elim (lookup section_p w.sections) [
    | none ↦ thrown w
    | some s ↦ elim (get_chunk_i s chunk_p) [
      | none ↦ thrown w
      | some i ↦ elim (get_elem? s.chunk_buffers i) [
        | none ↦ thrown w
        | some b ↦ get_buffer_of section_p i s (timer_reset chunk_p now b) chunk_p w
      ]
    ]
  ]

  -- Both set_voxel() and get_voxel() begin so: `none` for a section or a volume that is not there.
  abbrev pub with_volume :
      {A : Type 0}
      → A
      → (ℕ → ChunkBuffer V → V → World V N S → Outcome A (World V N S))
      → Vec
      → Outcome ℕ (World V N S)
      → Outcome A (World V N S)
  with_volume other f section_p (thrown w) = thrown w
  with_volume other f section_p (returned i w) = elim (buffer_at section_p i w) [
    | none ↦ returned other w
    | some b ↦ elim b.volume [ none ↦ returned other w | some v ↦ f i b v w ]
  ]

  -- get_section(), maintain_maximum_buffer_limit() and get_buffer(), in this order.
  unfoldable pub find_buffer :
      {A : Type 0}
      → A
      → (ℕ → ChunkBuffer V → V → World V N S → Outcome A (World V N S))
      → Vec
      → Vec
      → ℕ
      → World V N S
      → Outcome A (World V N S)
  find_buffer other f section_p chunk_p now w =
      let (there, w') = get_section section_p w in
      elim there [
        | false ↦ returned other w'
        | true ↦
            with_volume other f section_p
              (get_buffer section_p chunk_p now (maintain_maximum_buffer_limit now w'))
      ]

  abbrev pub note_section : Vec → World V N S → World V N S
  note_section section_p w = record w {
    sections_with_loaded_buffers = insert_section section_p w.sections_with_loaded_buffers;
  }

  abbrev pub note_dirty : Bool → World V N S → World V N S
  note_dirty already w = record w {
    total_buffers_dirty = if already then w.total_buffers_dirty else suc w.total_buffers_dirty;
  }

  unfoldable pub write_voxel :
      Vec → Vec → ℕ → ℕ → ChunkBuffer V → V → World V N S → Outcome (Unit {0}) (World V N S)
  write_voxel section_p voxel_p x i b v w = returned tt (
      note_section section_p (
        note_dirty b.dirty (
          put_buffer section_p i
            (record b { volume = some (engine.set_voxel_at voxel_p x v); dirty = true }) w)))

  unfoldable pub set_voxel : Vec → ℕ → ℕ → World V N S → Outcome (Unit {0}) (World V N S)
  set_voxel p x now w =
      let chunk_p = container_vec p w.chunk_size_voxels in
      let section_p = container_coord16 chunk_p w.section_size_chunks in
      find_buffer tt (write_voxel section_p (voxel_in_chunk p chunk_p w.chunk_size_voxels) x)
        section_p chunk_p now w

  unfoldable pub read_voxel :
      Vec → Vec → ℕ → ChunkBuffer V → V → World V N S → Outcome ℕ (World V N S)
  read_voxel section_p voxel_p i b v w =
      returned (engine.get_voxel_at v voxel_p) (note_section section_p w)

  unfoldable pub get_voxel : Vec → ℕ → World V N S → Outcome ℕ (World V N S)
  get_voxel p now w =
      let chunk_p = container_vec p w.chunk_size_voxels in
      let section_p = container_coord16 chunk_p w.section_size_chunks in
      find_buffer undefined_voxel
        (read_voxel section_p (voxel_in_chunk p chunk_p w.chunk_size_voxels)) section_p chunk_p now
        w
