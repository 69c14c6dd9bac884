-- ===== src/VoxelWorld/Access.antt =====
-- What one set_voxel() or get_voxel() does (builtin/voxelworld/voxelworld.cpp).
use buildat.Base.{
  ℕ, ◌≤◌, ◌<◌, ◌≡◌, refl, sym, ap, ◌∙◌, some, inl, true, arith, get_elem?-set_self, length-set,
  get_elem?-set_ne, ◌≢◌,
}
use mathlib.Core.Path.{subst}
use buildat.Base.Map.{lookup, lookup-insert_self, lookup-insert_ne}
use buildat.VoxelWorld.Coords.{Vec, vec_eq_instance}
use buildat.VoxelWorld.Section.{ChunkBuffer, Section, timer_reset}
use buildat.VoxelWorld.World.{Engine, World, put_section}
use buildat.VoxelWorld.Ready.{
  get_elem?-lt, HasVolume, with_buffer, get_chunk_i-with_buffer, put_buffer_there, IsReady,
  find_buffer-IsReady, chunk_of, section_of, place,
}
use buildat.VoxelWorld.Buffers.{
  returned, note_section, note_dirty, write_voxel, set_voxel, read_voxel, get_voxel,
  undefined_voxel,
}

module _ {V N S D : Type 0} (engine : Engine V N S D) where
  pub get_voxel-IsReady :
      (p : Vec) (now : ℕ) (w : World V N S) (i : ℕ) (s : Section V N) (b : ChunkBuffer V) (v : V)
      → IsReady engine w (section_of w p) (chunk_of w p) i s b v
      → w.total_buffers_loaded ≤ w.max_buffers_loaded
      → (w' : World V N S) × (get_voxel engine p now w
          ≡ returned (engine.get_voxel_at v (place w p)) w')
  unfolding get_voxel read_voxel
  get_voxel-IsReady p now w i s b v r few =
      let (w', got, e) =
        find_buffer-IsReady engine undefined_voxel (read_voxel engine (section_of w p) (place w p))
          (section_of w p) (chunk_of w p) now w i s b v r few in
      (_, e)

  -- A voxel of the buffer `i` was written: the buffer is `u` then, after it was `g`.
  pub record IsWritten (w : World V N S) (section_p : Vec) (s : Section V N) (i : ℕ)
      (g u : ChunkBuffer V) (w' : World V N S) : Type 0 where
    pub section : lookup section_p w'.sections ≡ some (with_buffer (with_buffer s i g) i u)
    pub scene : w'.scene ≡ w.scene
    pub few : w'.total_buffers_loaded ≤ w'.max_buffers_loaded
    pub chunk_size : w'.chunk_size_voxels ≡ w.chunk_size_voxels
    pub section_size : w'.section_size_chunks ≡ w.section_size_chunks
    pub others : (key : Vec) → key ≢ section_p → lookup key w'.sections ≡ lookup key w.sections

  pub set_voxel-IsWritten :
      (p : Vec) (x now : ℕ) (w : World V N S) (i : ℕ) (s : Section V N) (b : ChunkBuffer V) (v : V)
      → IsReady engine w (section_of w p) (chunk_of w p) i s b v
      → w.total_buffers_loaded < w.max_buffers_loaded
      → (w' : World V N S) × (g u : ChunkBuffer V) × (set_voxel engine p x now w ≡ returned tt w')
        × (u.volume ≡ some (engine.set_voxel_at (place w p) x v))
        × IsWritten w (section_of w p) s i g u w'
  unfolding set_voxel write_voxel
  set_voxel-IsWritten p x now w i s b v r few =
      let (w', got, e) =
        find_buffer-IsReady engine tt (write_voxel engine (section_of w p) (place w p) x)
          (section_of w p) (chunk_of w p) now w i s b v r (omega arith) in
      let got_b = record (timer_reset (chunk_of w p) now b) { volume = some v } in
      let put_b = record got_b {
        volume = some (engine.set_voxel_at (place w p) x v);
        dirty = true;
      } in
      let s1 = with_buffer s i got_b in
      let s2 = with_buffer s1 i put_b in
      let w1 = put_section (section_of w p) s2 w' in
      (
        note_section engine (section_of w p) (note_dirty engine got_b.dirty w1),
        got_b,
        put_b,
        e
            ∙ ap
                (λ t.
                  returned tt
                    (note_section engine (section_of w p) (note_dirty engine got_b.dirty t)))
                (put_buffer_there (section_of w p) i s1 put_b w' got.section),
        refl,
        record {
          section = lookup-insert_self (section_of w p) s2 w'.sections;
          scene = got.scene;
          few = omega (arith, got.loaded, got.limit);
          chunk_size = got.chunk_size;
          section_size = got.section_size;
          others = λ key ne.
              lookup-insert_ne (section_of w p) key s2 w'.sections (λ f. ne (sym f))
              ∙ got.others key ne;
        },
      )

  -- The chunk that was written can be read, with the new volume.
  pub IsWritten-IsReady :
      (w w' : World V N S) (section_p chunk_p : Vec) (s : Section V N) (i : ℕ)
      (b g u : ChunkBuffer V) (v v' : V)
      → IsReady engine w section_p chunk_p i s b v
      → IsWritten w section_p s i g u w'
      → u.volume ≡ some v'
      → IsReady engine w' section_p chunk_p i (with_buffer (with_buffer s i g) i u) u v'
  IsWritten-IsReady w w' section_p chunk_p s i b g u v v' r t full = record {
    section = t.section;
    index =
        get_chunk_i-with_buffer (with_buffer s i g) i u chunk_p
        ∙ get_chunk_i-with_buffer s i g chunk_p
        ∙ r.index;
    buffer =
        get_elem?-set_self (with_buffer s i g).chunk_buffers i u (
          omega (arith, length-set s.chunk_buffers i g, get_elem?-lt s.chunk_buffers i b r.buffer));
    volume = inl full;
  }

  -- Another chunk of the section can be read as before.
  pub IsWritten-IsReady_sibling :
      (w w' : World V N S) (section_p chunk_q : Vec) (s : Section V N) (i j : ℕ)
      (c g u : ChunkBuffer V) (v : V)
      → IsReady engine w section_p chunk_q j s c v
      → IsWritten w section_p s i g u w'
      → i ≢ j
      → IsReady engine w' section_p chunk_q j (with_buffer (with_buffer s i g) i u) c v
  IsWritten-IsReady_sibling w w' section_p chunk_q s i j c g u v r t ne = record {
    section = t.section;
    index =
        get_chunk_i-with_buffer (with_buffer s i g) i u chunk_q
        ∙ get_chunk_i-with_buffer s i g chunk_q
        ∙ r.index;
    buffer =
        get_elem?-set_ne (with_buffer s i g).chunk_buffers i j u ne
        ∙ get_elem?-set_ne s.chunk_buffers i j g ne
        ∙ r.buffer;
    volume = subst (λ scene. HasVolume engine s c chunk_q scene v) (sym t.scene) r.volume;
  }

  -- So can a chunk of another section.
  pub IsWritten-IsReady_stranger :
      (w w' : World V N S) (section_p section_q chunk_q : Vec) (s s' : Section V N) (i j : ℕ)
      (c g u : ChunkBuffer V) (v : V)
      → IsReady engine w section_q chunk_q j s' c v
      → IsWritten w section_p s i g u w'
      → section_q ≢ section_p
      → IsReady engine w' section_q chunk_q j s' c v
  IsWritten-IsReady_stranger w w' section_p section_q chunk_q s s' i j c g u v r t ne = record {
    section = t.others section_q ne ∙ r.section;
    index = r.index;
    buffer = r.buffer;
    volume = subst (λ scene. HasVolume engine s' c chunk_q scene v) (sym t.scene) r.volume;
  }
