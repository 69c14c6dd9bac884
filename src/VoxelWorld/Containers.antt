-- ===== src/VoxelWorld/Containers.antt =====
-- Which chunk a voxel is in (src/interface/polyvox_numeric.h).
use buildat.Base.{ℕ, suc, ◌+◌, ◌-◌, ◌*◌, ◌/◌, ◌≤◌, ◌<◌, ◌≡◌, sym, ap, ◌∙◌, ◌↔◌, arith}
use buildat.Base.Int.{
  ℤ, pos, negsuc, ◌+ℤ◌, ◌-ℤ◌, ◌*ℤ◌, ◌≤ℤ◌, tdiv, +ℤ_parts, -ℤ_parts, eq_of_parts, *ℤ-pos_parts,
}
use buildat.VoxelWorld.Coords.{
  Vec, Size, Region, container_coord, container_vec, get_chunk_region_voxels,
}
use mathlib.Core.Path.{subst}
use native.Mathlib.Nat.{
  div-add-mod', mod-lt, add-div_right, le-div_iff_mul-le, div-lt_iff_lt-mul, suc-mul,
}

container_coord-pos : (n d : ℕ) → container_coord (pos n) d ≡ pos (n / d)
unfolding container_coord tdiv
container_coord-pos n d = ground arith

-- What is divided for a negative number.
below : (n d : ℕ) → 0 < d → negsuc n -ℤ pos d +ℤ pos 1 ≡ negsuc (n + d - 1)
below n d h =
    omega (arith, +ℤ_parts, -ℤ_parts, eq_of_parts (negsuc n -ℤ pos d +ℤ pos 1) (negsuc (n + d - 1)))

shifted : (n d : ℕ) → container_coord (negsuc n) d ≡ tdiv (negsuc n -ℤ pos d +ℤ pos 1) d
unfolding container_coord
shifted n d = ground arith

tdiv-negsuc : (n d : ℕ) → 0 < d → tdiv (negsuc (n + d - 1)) d ≡ negsuc (n / d)
unfolding tdiv
tdiv-negsuc n d h =
    let e : suc (n + d - 1) ≡ n + d = omega arith in rw e (ground (arith, add-div_right n h))

container_coord-negsuc : (n d : ℕ) → 0 < d → container_coord (negsuc n) d ≡ negsuc (n / d)
container_coord-negsuc n d h = shifted n d ∙ ap (λ a. tdiv a d) (below n d h) ∙ tdiv-negsuc n d h

pub div_unique : (n m d : ℕ) → m * d ≤ n → n < m * d + d → m ≡ n / d
div_unique n m d low high = omega (
  arith,
  (le-div_iff_mul-le {k = d} {x = m} {y = n} (omega arith)).1 low,
  (div-lt_iff_lt-mul {k = d} {x = n} {y = suc m} (omega arith)).1 (omega (arith, suc-mul m d)),
)

-- The coordinates of the piece `c` of a size.
abbrev pub Covers : ℕ → ℤ → ℤ → Type 0
Covers d c x = (c *ℤ pos d ≤ℤ x) × (x ≤ℤ c *ℤ pos d +ℤ pos (d - 1))

Covers-container_coord : (d : ℕ) (c x : ℤ) → 0 < d → Covers d c x → c ≡ container_coord x d
Covers-container_coord d (pos m) (pos n) h (low, high) =
    ap pos (
      div_unique n m d (omega (arith, *ℤ-pos_parts (pos m) d))
        (omega (arith, *ℤ-pos_parts (pos m) d, +ℤ_parts)))
    ∙ sym (container_coord-pos n d)
Covers-container_coord d (pos m) (negsuc n) h (low, high) =
    absurd (omega (arith, *ℤ-pos_parts (pos m) d))
Covers-container_coord d (negsuc m) (pos n) h (low, high) =
    absurd (omega (arith, *ℤ-pos_parts (negsuc m) d, +ℤ_parts, suc-mul m d))
Covers-container_coord d (negsuc m) (negsuc n) h (low, high) =
    ap negsuc (
      div_unique n m d (omega (arith, *ℤ-pos_parts (negsuc m) d, +ℤ_parts, suc-mul m d))
        (omega (arith, *ℤ-pos_parts (negsuc m) d, +ℤ_parts, suc-mul m d)))
    ∙ sym (container_coord-negsuc n d h)

container_coord-Covers : (d : ℕ) (x : ℤ) → 0 < d → Covers d (container_coord x d) x
container_coord-Covers d (pos n) h =
    subst (λ c. Covers d c (pos n)) (sym (container_coord-pos n d))
      (omega (arith, *ℤ-pos_parts (pos (n / d)) d, +ℤ_parts, div-add-mod' n d, mod-lt n h))
container_coord-Covers d (negsuc n) h =
    subst (λ c. Covers d c (negsuc n)) (sym (container_coord-negsuc n d h))
      (omega (
        arith,
        *ℤ-pos_parts (negsuc (n / d)) d,
        +ℤ_parts,
        div-add-mod' n d,
        mod-lt n h,
        suc-mul (n / d) d,
      ))

abbrev pub IsPositive : Size → Type 0
IsPositive size = (0 < size.w) × (0 < size.h) × (0 < size.d)

abbrev pub Contains : Region → Vec → Type 0
Contains r p =
    ((r.lower.x ≤ℤ p.x) × (p.x ≤ℤ r.upper.x))
    × ((r.lower.y ≤ℤ p.y) × (p.y ≤ℤ r.upper.y))
    × ((r.lower.z ≤ℤ p.z) × (p.z ≤ℤ r.upper.z))

-- For chunks of a positive size, container_coord() of a voxel's position is the one chunk whose
-- region, as get_chunk_region_voxels() gives it, contains the voxel, also for negative positions.
pub get_chunk_region_voxels-container_vec :
    (size : Size) (chunk_p p : Vec)
    → IsPositive size
    → Contains (get_chunk_region_voxels size chunk_p) p ↔ (chunk_p ≡ container_vec p size)
get_chunk_region_voxels-container_vec size chunk_p p (hw, hh, hd) = (
  λ (a, b, c).
      ap3_vec (Covers-container_coord size.w chunk_p.x p.x hw a)
        (Covers-container_coord size.h chunk_p.y p.y hh b)
        (Covers-container_coord size.d chunk_p.z p.z hd c),
  λ e.
      subst (λ c. Contains (get_chunk_region_voxels size c) p) (sym e)
        (
          container_coord-Covers size.w p.x hw,
          container_coord-Covers size.h p.y hh,
          container_coord-Covers size.d p.z hd,
        ),
)
  where
    ap3_vec : {a b : Vec} → a.x ≡ b.x → a.y ≡ b.y → a.z ≡ b.z → a ≡ b
    ap3_vec e f g = cc
