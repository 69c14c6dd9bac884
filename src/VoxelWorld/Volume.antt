-- ===== src/VoxelWorld/Volume.antt =====
-- The stored form of a volume of voxels (src/impl/voxel_volume.cpp for VoxelInstance, with the
-- archive functions of src/interface/polyvox_cereal.h and src/interface/voxel_cereal.h). `none` is
-- an exception.
pub mod Laws
pub mod Compress
pub mod Decompress
use buildat.Base.{
  ℕ, zero, suc, ◌==◌, Option, none, some, List, [], ◌∷◌, ◌++◌, Bool, true, false, if◌then◌else◌,
  length,
}
use buildat.Base.Keys.{Bytes}
use buildat.Base.Int.{ℤ}
use buildat.VoxelWorld.Coords.{Vec, vec}

infixl 5 ◌>>=◌
abbrev pub ◌>>=◌ {ℓ κ} : {A : Type ℓ} {B : Type κ} → Option A → (A → Option B) → Option B
none >>= f = none
some a >>= f = f a

-- What the code reads and writes of a PolyVox::RawVolume: the corners of its region, and the data
-- of the voxels in m_pData. Its border value is not stored.
pub record RawVolume : Type 0 where
  pub lower : Vec
  pub upper : Vec
  pub voxels : List ℕ

-- cereal's portable binary archives: what an output archive writes when it is made, and for each
-- type that is stored here; an input archive takes it from the front of what is left.
pub record Cereal : Type 0 where
  pub begin : Bytes
  pub read_begin : Bytes → Option Bytes
  pub write_uint8 : ℕ → Bytes
  pub read_uint8 : Bytes → Option (ℕ × Bytes)
  pub write_int32 : ℤ → Bytes
  pub read_int32 : Bytes → Option (ℤ × Bytes)
  pub write_uint32 : ℕ → Bytes
  pub read_uint32 : Bytes → Option (ℕ × Bytes)
  pub write_string : Bytes → Bytes
  pub read_string : Bytes → Option (Bytes × Bytes)

-- compress_zlib() with its level, and decompress_zlib(), as Compress has them.
pub record Zlib : Type 0 where
  pub compress_zlib : Bytes → ℕ → Option Bytes
  pub decompress_zlib : Bytes → Option Bytes

-- A volume as a pointer that is not null.
unfoldable pub found : Option RawVolume → Option (Option RawVolume)
found none = none
found (some volume) = some (some volume)

-- `data_size` is the m_dataSize of a volume for the region with the two corners.
module _ (ar : Cereal) (zlib : Zlib) (data_size : Vec → Vec → ℕ) where
  -- cereal::save() and load() of a Vector3DInt32.
  unfoldable pub save_vector : Vec → Bytes
  save_vector v = ar.write_int32 v.x ++ (ar.write_int32 v.y ++ ar.write_int32 v.z)

  unfoldable pub load_vector : Bytes → Option (Vec × Bytes)
  load_vector b = do
    (x, b) ← ar.read_int32 b
    (y, b) ← ar.read_int32 b
    (z, b) ← ar.read_int32 b
    some (vec x y z, b)

  -- The loops over the voxels: serialize() of a VoxelInstance archives its data.
  unfoldable pub save_voxels : List ℕ → Bytes
  save_voxels [] = []
  save_voxels (v ∷ vs) = ar.write_uint32 v ++ save_voxels vs

  unfoldable pub load_voxels : ℕ → Bytes → Option (List ℕ × Bytes)
  load_voxels zero b = some ([], b)
  load_voxels (suc n) b = do (v, b) ← ar.read_uint32 b; (vs, b) ← load_voxels n b; some (v ∷ vs, b)

  unfoldable pub save_header : ℕ → RawVolume → Bytes
  save_header format volume =
      ar.begin ++ (ar.write_uint8 format ++ (save_vector volume.lower ++ save_vector volume.upper))

  unfoldable pub serialize_volume_simple : RawVolume → Bytes
  serialize_volume_simple volume = save_header 2 volume ++ save_voxels volume.voxels

  unfoldable pub serialize_volume_compressed : RawVolume → Option Bytes
  serialize_volume_compressed volume = do
    compressed ← zlib.compress_zlib (ar.begin ++ save_voxels volume.voxels) 6
    some (save_header 3 volume ++ ar.write_string compressed)

  -- The voxels of the formats 2 and 3, as many as there are in the new volume.
  unfoldable pub load_simple : ℕ → Bytes → Option (List ℕ)
  load_simple n b = do (vs, b) ← load_voxels n b; some vs

  unfoldable pub load_compressed : ℕ → Bytes → Option (List ℕ)
  load_compressed n b = do
    (compressed, b) ← ar.read_string b
    raw ← zlib.decompress_zlib compressed
    raw ← ar.read_begin raw
    load_simple n raw

  unfoldable pub load_volume : (ℕ → Bytes → Option (List ℕ)) → Bytes → Option RawVolume
  load_volume load_data b = do
    (lower, b) ← load_vector b
    (upper, b) ← load_vector b
    voxels ← load_data (data_size lower upper) b
    some (record { lower = lower; upper = upper; voxels = voxels })

  -- `some none` is a null pointer: the format is not known.
  unfoldable pub load_format : ℕ → Bytes → Option (Option RawVolume)
  load_format format b =
      if format == 2
      then found (load_volume load_simple b)
      else if format == 3
      then found (load_volume load_compressed b)
      else some none

  unfoldable pub deserialize_volume : Bytes → Option (Option RawVolume)
  deserialize_volume b = do b ← ar.read_begin b; (format, b) ← ar.read_uint8 b; load_format format b
