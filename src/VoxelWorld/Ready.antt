-- ===== src/VoxelWorld/Ready.antt =====
-- Where get_buffer() finds the volume of a chunk (builtin/voxelworld/voxelworld.cpp).
use buildat.Base.{
  ℕ, zero, suc, ◌≤◌, ◌<◌, ◌≡◌, ◌≢◌, refl, sym, ap, ◌∙◌, none, some, List, [], ◌∷◌, ◌++◌, ◌⊎◌, inl,
  inr, arith, get_elem?, set, length, get_elem?-set_self, Bool-cases,
}
use buildat.Base.Map.{lookup, lookup-insert_self, lookup-insert_ne}
use buildat.VoxelWorld.Coords.{
  Vec, vec_eq_instance, container_vec, container_coord16, voxel_in_chunk,
}
use buildat.VoxelWorld.Section.{ChunkBuffer, Section, timer_reset, get_chunk_i}
use buildat.VoxelWorld.World.{
  Engine, World, contains_vec, last_two, get_section, buffer_at, put_section, put_buffer,
  maintain_maximum_buffer_limit,
}
use buildat.VoxelWorld.Buffers.{
  Outcome, returned, load_buffer, get_buffer_of, get_buffer, with_volume, find_buffer,
}

pub get_elem?-lt :
    {A : Type 0} → (l : List A) (i : ℕ) (a : A) → get_elem? l i ≡ some a → i < length l
get_elem?-lt [] i a h = absurd cc
get_elem?-lt (x ∷ l) zero a h = omega arith
get_elem?-lt (x ∷ l) (suc i) a h = omega (arith, get_elem?-lt l i a h)

module _ {V N : Type 0} where
  abbrev pub with_buffer : Section V N → ℕ → ChunkBuffer V → Section V N
  with_buffer s i b = record s { chunk_buffers = set s.chunk_buffers i b }

  pub get_chunk_i-with_buffer :
      (s : Section V N) (i : ℕ) (b : ChunkBuffer V) (p : Vec)
      → get_chunk_i (with_buffer s i b) p ≡ get_chunk_i s p
  unfolding get_chunk_i
  get_chunk_i-with_buffer s i b p = refl

module _ {V N S : Type 0} where
  -- The chunk and the section of a voxel, and where it is in the chunk.
  abbrev pub chunk_of : World V N S → Vec → Vec
  chunk_of w p = container_vec p w.chunk_size_voxels

  abbrev pub section_of : World V N S → Vec → Vec
  section_of w p = container_coord16 (chunk_of w p) w.section_size_chunks

  abbrev pub place : World V N S → Vec → Vec
  place w p = voxel_in_chunk p (chunk_of w p) w.chunk_size_voxels

  pub put_buffer_there :
      (section_p : Vec) (i : ℕ) (s : Section V N) (b : ChunkBuffer V) (w : World V N S)
      → lookup section_p w.sections ≡ some s
      → put_buffer section_p i b w ≡ put_section section_p (with_buffer s i b) w
  unfolding put_buffer
  put_buffer_there section_p i s b w h = ground (arith, h)

  -- get_buffer() returns the index, the buffer gets the volume, and nothing else changes but the
  -- count of what is loaded.
  pub record IsGot (w : World V N S) (section_p : Vec) (s : Section V N) (i : ℕ) (b : ChunkBuffer V)
      (w' : World V N S) : Type 0 where
    pub section : lookup section_p w'.sections ≡ some (with_buffer s i b)
    pub scene : w'.scene ≡ w.scene
    pub loaded : w'.total_buffers_loaded ≤ suc w.total_buffers_loaded
    pub limit : w'.max_buffers_loaded ≡ w.max_buffers_loaded
    pub chunk_size : w'.chunk_size_voxels ≡ w.chunk_size_voxels
    pub section_size : w'.section_size_chunks ≡ w.section_size_chunks
    pub others : (key : Vec) → key ≢ section_p → lookup key w'.sections ≡ lookup key w.sections

  put_section-IsGot :
      (w : World V N S) (section_p : Vec) (i : ℕ) (s : Section V N) (b : ChunkBuffer V) (n : ℕ)
      → n ≤ suc w.total_buffers_loaded
      → IsGot w section_p s i b
          (record (put_section section_p (with_buffer s i b) w) { total_buffers_loaded = n })
  put_section-IsGot w section_p i s b n h = record {
    section = lookup-insert_self section_p (with_buffer s i b) w.sections;
    scene = refl;
    loaded = h;
    limit = refl;
    chunk_size = refl;
    section_size = refl;
    others =
        λ key ne. lookup-insert_ne section_p key (with_buffer s i b) w.sections (λ e. ne (sym e));
  }

module _ {V N S D : Type 0} (engine : Engine V N S D) where
  -- The volume of a buffer, or what its node holds when it is not loaded.
  abbrev pub HasVolume : Section V N → ChunkBuffer V → Vec → S → V → Type 0
  HasVolume s b chunk_p scene v =
      (b.volume ≡ some v)
      ⊎ ((b.volume ≡ none)
          × (engine.get_node_id_at s.node_ids chunk_p ≢ 0)
          × ((stored : D) × (engine.get_node scene (engine.get_node_id_at s.node_ids chunk_p)
                ≡ some (some stored))
              × (engine.deserialize_volume stored ≡ some v)))

  -- A chunk that can be read: its section, its index and its buffer are there, with the volume `v`.
  pub record IsReady (w : World V N S) (section_p : Vec) (chunk_p : Vec) (i : ℕ) (s : Section V N)
      (b : ChunkBuffer V) (v : V) : Type 0 where
    pub section : lookup section_p w.sections ≡ some s
    pub index : get_chunk_i s chunk_p ≡ some i
    pub buffer : get_elem? s.chunk_buffers i ≡ some b
    pub volume : HasVolume s b chunk_p w.scene v

  get_buffer-IsGot :
      (w : World V N S) (section_p chunk_p : Vec) (i : ℕ) (s : Section V N) (b : ChunkBuffer V)
      (v : V) (now : ℕ)
      → IsReady w section_p chunk_p i s b v
      → (w' : World V N S) × (get_buffer engine section_p chunk_p now w ≡ returned i w')
        × IsGot w section_p s i (record (timer_reset chunk_p now b) { volume = some v }) w'
  unfolding get_buffer get_buffer_of load_buffer timer_reset
  get_buffer-IsGot w section_p chunk_p i s b v now r = found r.volume
    where
      found :
          HasVolume s b chunk_p w.scene v
          → (w' : World V N S) × (get_buffer engine section_p chunk_p now w ≡ returned i w')
            × IsGot w section_p s i (record (timer_reset chunk_p now b) { volume = some v }) w'
      found (inl e) =
          let b' = record (timer_reset chunk_p now b) { volume = some v } in
          (
            put_section section_p (with_buffer s i b') w,
            ground (
              arith,
              r.section,
              r.index,
              r.buffer,
              e,
              put_buffer_there section_p i s b' w r.section,
            ),
            put_section-IsGot w section_p i s b' w.total_buffers_loaded (omega arith),
          )
      found (inr (e, ne, (stored, there, d))) =
          let b' = record (timer_reset chunk_p now b) { volume = some v } in
          let loaded = record (timer_reset chunk_p now b) {
            volume = engine.deserialize_volume stored;
          } in
          (
            record (put_section section_p (with_buffer s i b') w) {
              total_buffers_loaded = suc w.total_buffers_loaded;
            },
            ground (
              arith,
              r.section,
              r.index,
              r.buffer,
              e,
              ne,
              there,
              d,
              put_buffer_there section_p i s loaded w r.section,
            ),
            put_section-IsGot w section_p i s b' (suc w.total_buffers_loaded) (omega arith),
          )

  -- Where a section is found and no more buffers are loaded than are allowed.
  find_buffer-with_volume :
      {A : Type 0} (other : A) (f : ℕ → ChunkBuffer V → V → World V N S → Outcome A (World V N S))
      (section_p chunk_p : Vec) (now : ℕ) (w : World V N S) (s : Section V N)
      → lookup section_p w.sections ≡ some s
      → w.total_buffers_loaded ≤ w.max_buffers_loaded
      → (l : List Vec) × (find_buffer engine other f section_p chunk_p now w
          ≡ with_volume engine other f section_p
              (get_buffer engine section_p chunk_p now (record w { last_used_sections = l })))
  unfolding find_buffer get_section maintain_maximum_buffer_limit
  find_buffer-with_volume other f section_p chunk_p now w s there few =
      elim (Bool-cases (contains_vec section_p w.last_used_sections)) [
        | inl e ↦ (w.last_used_sections, ground (arith, e, there))
        | inr e ↦ (last_two (w.last_used_sections ++ section_p ∷ []), ground (arith, e, there))
      ]

  -- Then the volume is there, and the operation goes on with it.
  pub find_buffer-IsReady :
      {A : Type 0} (other : A) (f : ℕ → ChunkBuffer V → V → World V N S → Outcome A (World V N S))
      (section_p chunk_p : Vec) (now : ℕ) (w : World V N S) (i : ℕ) (s : Section V N)
      (b : ChunkBuffer V) (v : V)
      → IsReady w section_p chunk_p i s b v
      → w.total_buffers_loaded ≤ w.max_buffers_loaded
      → (w' : World V N S) × IsGot w section_p s i
          (record (timer_reset chunk_p now b) { volume = some v })
          w'
        × (find_buffer engine other f section_p chunk_p now w
            ≡ f i (record (timer_reset chunk_p now b) { volume = some v }) v w')
  unfolding buffer_at
  find_buffer-IsReady other f section_p chunk_p now w i s b v r few =
      let b' = record (timer_reset chunk_p now b) { volume = some v } in
      let (l, e) = find_buffer-with_volume other f section_p chunk_p now w s r.section few in
      let (w', g, got) =
        get_buffer-IsGot (record w { last_used_sections = l }) section_p chunk_p i s b v now
          (record { section = r.section; index = r.index; buffer = r.buffer; volume = r.volume }) in
      let there =
        get_elem?-set_self s.chunk_buffers i b' (get_elem?-lt s.chunk_buffers i b r.buffer) in
      (
        w',
        record {
          section = got.section;
          scene = got.scene;
          loaded = got.loaded;
          limit = got.limit;
          chunk_size = got.chunk_size;
          section_size = got.section_size;
          others = got.others;
        },
        e ∙ ap (with_volume engine other f section_p) g ∙ ground (arith, got.section, there),
      )
