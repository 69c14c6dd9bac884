-- ===== src/VoxelWorld/Coords.antt =====
-- Positions of voxels, chunks and sections (src/interface/polyvox_numeric.h, and the regions of
-- builtin/voxelworld/voxelworld.cpp).
use buildat.Base.{ℕ, ◌-◌, ◌*◌, ◌≡◌, ◌↔◌, Bool, true, ◌&&◌, if◌then◌else◌, arith}
use buildat.Base.Keys.{Eq}
use buildat.Base.Int.{ℤ, pos, ◌+ℤ◌, ◌-ℤ◌, ◌*ℤ◌, tdiv, leb_ℤ, eq_ℤ, eq_ℤ_iff, to_int16}

pub record Vec : Type 0 where
  pub x : ℤ
  pub y : ℤ
  pub z : ℤ

-- A size, which is positive.
pub record Size : Type 0 where
  pub w : ℕ
  pub h : ℕ
  pub d : ℕ

pub record Region : Type 0 where
  pub lower : Vec
  pub upper : Vec

abbrev pub vec : ℤ → ℤ → ℤ → Vec
vec x y z = record { x = x; y = y; z = z }

abbrev pub vec_eq : Vec → Vec → Bool
vec_eq a b = eq_ℤ a.x b.x && eq_ℤ a.y b.y && eq_ℤ a.z b.z

unfoldable pub container_coord : ℤ → ℕ → ℤ
container_coord x d = tdiv (if leb_ℤ (pos 0) x then x else x -ℤ pos d +ℤ pos 1) d

abbrev pub container_vec : Vec → Size → Vec
container_vec p size =
    vec (container_coord p.x size.w) (container_coord p.y size.h) (container_coord p.z size.d)

abbrev pub container_coord16 : Vec → Size → Vec
container_coord16 p size =
    vec (to_int16 (container_coord p.x size.w)) (to_int16 (container_coord p.y size.h))
      (to_int16 (container_coord p.z size.d))

-- The lower corner of what has the position `p` in pieces of a size.
abbrev pub times : Vec → Size → Vec
times p size = vec (p.x *ℤ pos size.w) (p.y *ℤ pos size.h) (p.z *ℤ pos size.d)

abbrev pub minus : Vec → Vec → Vec
minus a b = vec (a.x -ℤ b.x) (a.y -ℤ b.y) (a.z -ℤ b.z)

abbrev pub plus_extent : Vec → Size → Vec
plus_extent p size =
    vec (p.x +ℤ pos (size.w - 1)) (p.y +ℤ pos (size.h - 1)) (p.z +ℤ pos (size.d - 1))

abbrev pub product : Size → Size → Size
product a b = record { w = a.w * b.w; h = a.h * b.h; d = a.d * b.d }

abbrev pub get_chunk_region_voxels : Size → Vec → Region
get_chunk_region_voxels chunk_size chunk_p =
    let p0 = times chunk_p chunk_size in record { lower = p0; upper = plus_extent p0 chunk_size }

abbrev pub get_section_region_voxels : Size → Size → Vec → Region
get_section_region_voxels section_size chunk_size section_p =
    let p0 = times (times section_p section_size) chunk_size in
    record { lower = p0; upper = plus_extent p0 (product section_size chunk_size) }

-- The position of a voxel within its chunk.
abbrev pub voxel_in_chunk : Vec → Vec → Size → Vec
voxel_in_chunk p chunk_p chunk_size = minus p (times chunk_p chunk_size)

pub vec_eq_iff : (a b : Vec) → (vec_eq a b ≡ true) ↔ (a ≡ b)
vec_eq_iff a b = ground (arith, eq_ℤ_iff a.x b.x, eq_ℤ_iff a.y b.y, eq_ℤ_iff a.z b.z)

instance abbrev pub vec_eq_instance : Eq Vec
vec_eq_instance = record { beq = vec_eq; beq_iff = vec_eq_iff }
