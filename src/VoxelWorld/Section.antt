-- ===== src/VoxelWorld/Section.antt =====
-- ChunkBuffer and Section (builtin/voxelworld/voxelworld.cpp). A volume of PolyVox is a parameter.
use buildat.Base.{
  ℕ, suc, ◌+◌, ◌-◌, ◌*◌, ◌/◌, ◌^◌, Option, none, some, List, Bool, false, if◌then◌else◌, ltb,
  replicate,
}
use buildat.Base.Int.{ℤ, pos, negsuc, ◌+ℤ◌, ◌*ℤ◌}
use buildat.VoxelWorld.Coords.{Vec, Size, vec, minus}

pub record ChunkBuffer (V : Type 0) : Type 0 where
  pub chunk_p : Vec
  pub volume : Option V
  pub dirty : Bool
  pub last_accessed_us : ℕ

abbrev pub chunk_buffer : {V : Type 0} → ChunkBuffer V
chunk_buffer = record {
  chunk_p = vec (pos 0) (pos 0) (pos 0);
  volume = none;
  dirty = false;
  last_accessed_us = 0;
}

-- `contained_chunks` has the lower corner `lower` and the size of the three counts.
pub record Section (V : Type 0) (N : Type 0) : Type 0 where
  pub section_p : Vec
  pub chunk_size : Size
  pub lower : Vec
  pub node_ids : N
  pub num_chunks : ℕ
  pub w_chunks : ℕ
  pub h_chunks : ℕ
  pub d_chunks : ℕ
  pub chunk_buffers : List (ChunkBuffer V)
  pub loaded : Bool
  pub generated : Bool

-- An `int` as a `size_t`.
abbrev pub to_size : ℤ → ℕ
to_size (pos n) = n
to_size (negsuc n) = 2 ^ 64 - suc n

module _ {V : Type 0} where
  unfoldable pub timer_reset : Vec → ℕ → ChunkBuffer V → ChunkBuffer V
  timer_reset p now b = record b { chunk_p = p; last_accessed_us = now }

  -- `none`: the buffer stays. Else what it is afterwards; it is not loaded.
  unfoldable pub unload_if_old : ℕ → ℕ → ChunkBuffer V → Option (ChunkBuffer V)
  unload_if_old now timeout_us b = elim b.volume [
    | none ↦ some b
    | some v ↦
        if ltb now (b.last_accessed_us + timeout_us)
        then none
        else some (record b { volume = none; dirty = false })
  ]

module _ {V N : Type 0} where
  -- A section whose chunks, `counts` of them, begin at `lower`.
  unfoldable pub new_section : Vec → Size → Vec → Size → N → Section V N
  new_section section_p chunk_size lower counts node_ids = record {
    section_p = section_p;
    chunk_size = chunk_size;
    lower = lower;
    node_ids = node_ids;
    num_chunks = counts.w * counts.h * counts.d;
    w_chunks = counts.w;
    h_chunks = counts.h;
    d_chunks = counts.d;
    chunk_buffers = replicate (counts.w * counts.h * counts.d) chunk_buffer;
    loaded = false;
    generated = false;
  }

  -- `none`: the exception.
  unfoldable pub get_chunk_i : Section V N → Vec → Option ℕ
  get_chunk_i s chunk_p =
      let p = minus chunk_p s.lower in
      let i = to_size (p.z *ℤ pos s.h_chunks *ℤ pos s.w_chunks +ℤ p.y *ℤ pos s.w_chunks +ℤ p.x) in
      if ltb i s.num_chunks then some i else none

  unfoldable pub get_chunk_p : Section V N → ℕ → Vec
  get_chunk_p s chunk_i =
      let z = chunk_i / s.h_chunks / s.w_chunks in
      let y = chunk_i / s.w_chunks - z * s.h_chunks in
      let x = chunk_i - z * s.h_chunks * s.w_chunks - y * s.w_chunks in
      vec (s.lower.x +ℤ pos x) (s.lower.y +ℤ pos y) (s.lower.z +ℤ pos z)
