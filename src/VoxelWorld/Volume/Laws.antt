-- ===== src/VoxelWorld/Volume/Laws.antt =====
-- What is stored of a volume is read back (src/impl/voxel_volume.cpp).
use mathlib.Core.List.{append-nil, append_assoc}
use buildat.Base.{
  ℕ, ◌^◌, ◌<◌, ◌≡◌, refl, sym, ap, ◌∙◌, Option, some, List, [], ◌∷◌, ◌++◌, length, arith,
}
use buildat.Base.Keys.{Bytes}
use buildat.Base.Int.{ℤ, pos, negsuc}
use buildat.VoxelWorld.Coords.{Vec}
use buildat.VoxelWorld.Volume.{
  RawVolume, Cereal, Zlib, save_vector, load_vector, save_voxels, load_voxels, save_header,
  serialize_volume_simple, serialize_volume_compressed, load_simple, load_compressed, load_volume,
  found, load_format, deserialize_volume,
}

-- The integers that fit in an int32_t.
abbrev pub IsInt32 : ℤ → Type 0
IsInt32 (pos n) = n < 2 ^ 31
IsInt32 (negsuc n) = n < 2 ^ 31

pub record IsInt32Vector (v : Vec) : Type 0 where
  pub x : IsInt32 v.x
  pub y : IsInt32 v.y
  pub z : IsInt32 v.z

pub data AreUint32 : List ℕ → Type 0 where
  none_left : AreUint32 []
  one_more : (v : ℕ) (vs : List ℕ) → v < 2 ^ 32 → AreUint32 vs → AreUint32 (v ∷ vs)

-- An input archive gives back what an output archive has written, and keeps what follows.
pub record IsCereal (ar : Cereal) : Type 0 where
  pub begin : (b : Bytes) → ar.read_begin (ar.begin ++ b) ≡ some b
  pub uint8 : (n : ℕ) (b : Bytes) → n < 256 → ar.read_uint8 (ar.write_uint8 n ++ b) ≡ some (n, b)
  pub int32 : (n : ℤ) (b : Bytes) → IsInt32 n → ar.read_int32 (ar.write_int32 n ++ b) ≡ some (n, b)
  pub uint32 :
      (n : ℕ) (b : Bytes) → n < 2 ^ 32 → ar.read_uint32 (ar.write_uint32 n ++ b) ≡ some (n, b)
  pub string : (s b : Bytes) → ar.read_string (ar.write_string s ++ b) ≡ some (s, b)

-- Each string is compressed at each level, and read from what was compressed.
pub record IsZlib (zlib : Zlib) : Type 0 where
  pub compress :
      (b : Bytes) (level : ℕ)
      → level < 10
      → (c : Bytes) × (zlib.compress_zlib b level ≡ some c) × (zlib.decompress_zlib c ≡ some b)

-- A volume as PolyVox makes it: as many voxels as its region has, of 32 bits each.
pub record IsRawVolume (data_size : Vec → Vec → ℕ) (v : RawVolume) : Type 0 where
  pub lower : IsInt32Vector v.lower
  pub upper : IsInt32Vector v.upper
  pub size : length v.voxels ≡ data_size v.lower v.upper
  pub fits : AreUint32 v.voxels

module _ (ar : Cereal) (zlib : Zlib) (data_size : Vec → Vec → ℕ) (is_cereal : IsCereal ar)
    (is_zlib : IsZlib zlib) where
  load_vector-save_vector :
      (v : Vec) (b : Bytes)
      → IsInt32Vector v
      → load_vector ar zlib data_size (save_vector ar zlib data_size v ++ b) ≡ some (v, b)
  unfolding load_vector save_vector
  load_vector-save_vector v b fits =
      rw
        (
          append_assoc (ar.write_int32 v.x) (ar.write_int32 v.y ++ ar.write_int32 v.z) b,
          append_assoc (ar.write_int32 v.y) (ar.write_int32 v.z) b,
          is_cereal.int32 v.x (ar.write_int32 v.y ++ (ar.write_int32 v.z ++ b)) fits.x,
          is_cereal.int32 v.y (ar.write_int32 v.z ++ b) fits.y,
          is_cereal.int32 v.z b fits.z,
        )
        refl

  load_voxels-save_voxels :
      (vs : List ℕ) (b : Bytes)
      → AreUint32 vs
      → load_voxels ar zlib data_size (length vs) (save_voxels ar zlib data_size vs ++ b)
        ≡ some (vs, b)
  unfolding load_voxels save_voxels
  load_voxels-save_voxels _ b none_left = refl
  load_voxels-save_voxels _ b (one_more v vs fits rest) =
      rw
        (
          append_assoc (ar.write_uint32 v) (save_voxels ar zlib data_size vs) b,
          is_cereal.uint32 v (save_voxels ar zlib data_size vs ++ b) fits,
          load_voxels-save_voxels vs b rest,
        )
        refl

  load_volume-save_vector :
      (load_data : ℕ → Bytes → Option (List ℕ)) (v : RawVolume) (b : Bytes)
      → IsRawVolume data_size v
      → load_data (length v.voxels) b ≡ some v.voxels
      → load_volume ar zlib data_size load_data
          ((save_vector ar zlib data_size v.lower ++ save_vector ar zlib data_size v.upper) ++ b)
        ≡ some v
  unfolding load_volume
  load_volume-save_vector load_data v b is h =
      rw
        (
          append_assoc (save_vector ar zlib data_size v.lower)
              (save_vector ar zlib data_size v.upper) b,
          load_vector-save_vector v.lower (save_vector ar zlib data_size v.upper ++ b) is.lower,
          load_vector-save_vector v.upper b is.upper,
          sym is.size,
          h,
        )
        refl

  deserialize_volume-save_header :
      (format : ℕ) (v : RawVolume) (b : Bytes)
      → format < 256
      → deserialize_volume ar zlib data_size (save_header ar zlib data_size format v ++ b)
        ≡ load_format ar zlib data_size format
            ((save_vector ar zlib data_size v.lower ++ save_vector ar zlib data_size v.upper) ++ b)
  unfolding deserialize_volume save_header
  deserialize_volume-save_header format v b small =
      let corners =
        save_vector ar zlib data_size v.lower ++ save_vector ar zlib data_size v.upper in
      rw
        (
          append_assoc ar.begin (ar.write_uint8 format ++ corners) b,
          append_assoc (ar.write_uint8 format) corners b,
          is_cereal.begin (ar.write_uint8 format ++ (corners ++ b)),
          is_cereal.uint8 format (corners ++ b) small,
        )
        refl

  load_simple-save_voxels :
      (vs : List ℕ)
      → AreUint32 vs
      → load_simple ar zlib data_size (length vs) (save_voxels ar zlib data_size vs) ≡ some vs
  unfolding load_simple
  load_simple-save_voxels vs fits =
      rw (sym (append-nil (save_voxels ar zlib data_size vs)), load_voxels-save_voxels vs [] fits)
        refl

  deserialize_volume-serialize_volume_simple :
      (v : RawVolume)
      → IsRawVolume data_size v
      → deserialize_volume ar zlib data_size (serialize_volume_simple ar zlib data_size v)
        ≡ some (some v)
  unfolding serialize_volume_simple load_format found
  deserialize_volume-serialize_volume_simple v is =
      deserialize_volume-save_header 2 v (save_voxels ar zlib data_size v.voxels) (omega arith)
      ∙ ap found (
          load_volume-save_vector (load_simple ar zlib data_size) v
            (save_voxels ar zlib data_size v.voxels) is (load_simple-save_voxels v.voxels is.fits))

  -- The string that is stored of the voxels.
  compressed_voxels :
      (v : RawVolume)
      → IsRawVolume data_size v
      → (c : Bytes) × (zlib.compress_zlib (ar.begin ++ save_voxels ar zlib data_size v.voxels) 6
          ≡ some c)
        × (load_compressed ar zlib data_size (length v.voxels) (ar.write_string c) ≡ some v.voxels)
  unfolding load_compressed
  compressed_voxels v is =
      let vs = save_voxels ar zlib data_size v.voxels in
      let (c, goes, back) = is_zlib.compress (ar.begin ++ vs) 6 (omega arith) in
      (
        c,
        goes,
        rw (sym (append-nil (ar.write_string c)), is_cereal.string c [], back, is_cereal.begin vs)
            (load_simple-save_voxels v.voxels is.fits),
      )

  pub deserialize_volume-serialize_volume_compressed :
      (v : RawVolume)
      → IsRawVolume data_size v
      → (b : Bytes) × (serialize_volume_compressed ar zlib data_size v ≡ some b)
        × (deserialize_volume ar zlib data_size b ≡ some (some v))
  unfolding serialize_volume_compressed load_format found
  deserialize_volume-serialize_volume_compressed v is =
      let (c, goes, back) = compressed_voxels v is in
      (
        save_header ar zlib data_size 3 v ++ ar.write_string c,
        rw goes refl,
        deserialize_volume-save_header 3 v (ar.write_string c) (omega arith)
            ∙ ap found (
                load_volume-save_vector (load_compressed ar zlib data_size) v (ar.write_string c) is
                  back),
      )

  -- A volume that was stored in the simple or in the compressed format is read back, and it is
  -- stored without an exception. This is for a volume with the voxels of its region, whose corners
  -- and voxels have 32 bits.
  pub deserialize_volume-serialize_volume :
      (v : RawVolume)
      → IsRawVolume data_size v
      → (deserialize_volume ar zlib data_size (serialize_volume_simple ar zlib data_size v)
          ≡ some (some v))
        × ((b : Bytes) × (serialize_volume_compressed ar zlib data_size v ≡ some b)
            × (deserialize_volume ar zlib data_size b ≡ some (some v)))
  deserialize_volume-serialize_volume v is = (
    deserialize_volume-serialize_volume_simple v is,
    deserialize_volume-serialize_volume_compressed v is,
  )
