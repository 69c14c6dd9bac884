-- ===== src/VoxelWorld/Index.antt =====
-- Chunks and their indices in a section (Section::get_chunk_i() and Section::get_chunk_p() of
-- builtin/voxelworld/voxelworld.cpp).
use buildat.Base.{
  ℕ, ◌+◌, ◌-◌, ◌*◌, ◌/◌, ◌%◌, ◌<◌, ◌≡◌, sym, ap, ◌∙◌, ◌↔◌, some, some_injective, arith,
}
use buildat.Base.Int.{
  ℤ, pos, pos_part, ◌+ℤ◌, ◌-ℤ◌, ◌≤ℤ◌, +ℤ_parts, pos-*ℤ, pos-+ℤ, +ℤ-cancel, +ℤ-from,
}
use buildat.VoxelWorld.Coords.{Vec, Region, vec, plus_extent}
use buildat.VoxelWorld.Containers.{div_unique, Contains}
use buildat.VoxelWorld.Section.{Section, get_chunk_i, get_chunk_p}
use mathlib.Core.Path.{subst}
use native.Mathlib.Nat.{
  le-div_iff_mul-le, div-lt_iff_lt-mul, add-mul, mul_assoc, mul_comm, mod-lt, div-add-mod',
}

row_lt : (w h x y : ℕ) → x < w → y < h → y * w + x < h * w
row_lt w h x y hx hy = grind arith

layer_lt : (w h d x y z : ℕ) → x < w → y < h → z < d → z * h * w + y * w + x < w * h * d
layer_lt w h d x y z hx hy hz = omega (
  arith,
  row_lt w (d * h) x (z * h + y) hx (row_lt h d y z hy hz),
  add-mul (z * h) y w,
  mul_comm (d * h) w,
  mul_comm d h,
  mul_assoc w h d,
)

-- What get_chunk_p() computes from an index.
decode :
    (w h x y z : ℕ)
    → x < w
    → y < h
    → ((z * h * w + y * w + x) / h / w ≡ z) × ((z * h * w + y * w + x) / w ≡ z * h + y)
decode w h x y z hx hy =
    let above : z * h * w ≡ z * w * h = grind (arith, mul_assoc, mul_comm h w) in
    let over : z * w * h + w * h ≡ (z * w + w) * h = sym (add-mul (z * w) w h) in
    let lower =
      (le-div_iff_mul-le {k = h} {x = z * w} {y = z * h * w + y * w + x} (omega arith)).1
        (omega (arith, above)) in
    let upper =
      (div-lt_iff_lt-mul {k = h} {x = z * h * w + y * w + x} {y = z * w + w} (omega arith)).1
        (omega (arith, above, over, row_lt w h x y hx hy, mul_comm h w)) in
    (
      sym (div_unique ((z * h * w + y * w + x) / h) z w lower upper),
      sym (
          div_unique (z * h * w + y * w + x) (z * h + y) w (omega (arith, add-mul (z * h) y w))
            (omega (arith, add-mul (z * h) y w))),
    )

encode :
    (w h d i : ℕ)
    → 0 < w
    → 0 < h
    → i < w * h * d
    → (x : ℕ) × (y : ℕ) × (z : ℕ) × (x < w) × (y < h) × (z < d) × (i ≡ z * h * w + y * w + x)
encode w h d i hw hh hi = (
  i % w,
  i / w % h,
  i / w / h,
  mod-lt i hw,
  mod-lt (i / w) hh,
  (div-lt_iff_lt-mul {k = h} {x = i / w} {y = d} hh).1 (
      (div-lt_iff_lt-mul {k = w} {x = i} {y = d * h} hw).1
        (omega (arith, mul_comm (d * h) w, mul_comm d h, mul_assoc w h d))),
  omega (
    arith,
    div-add-mod' i w,
    ap (λ n. n * w) (div-add-mod' (i / w) h),
    add-mul (i / w / h * h) (i / w % h) w,
  ),
)

-- A coordinate between two bounds, from the lower one.
offset_lt : (a b : ℤ) (n : ℕ) → 0 < n → b ≤ℤ a → a ≤ℤ b +ℤ pos (n - 1) → pos_part (a -ℤ b) < n
unfolding ◌+ℤ◌ ◌-ℤ◌
offset_lt a b n pos_n low high = ground arith

module _ {V N : Type 0} where
  pub record IsSized (s : Section V N) : Type 0 where
    pub w_pos : 0 < s.w_chunks
    pub h_pos : 0 < s.h_chunks
    pub d_pos : 0 < s.d_chunks
    pub count : s.num_chunks ≡ s.w_chunks * s.h_chunks * s.d_chunks

  -- The region of the chunks of a section.
  abbrev pub contained_chunks : Section V N → Region
  contained_chunks s = record {
    lower = s.lower;
    upper = plus_extent s.lower (record { w = s.w_chunks; h = s.h_chunks; d = s.d_chunks });
  }

  -- The chunk at local coordinates.
  abbrev local : Section V N → ℕ → ℕ → ℕ → Vec
  local s x y z = vec (s.lower.x +ℤ pos x) (s.lower.y +ℤ pos y) (s.lower.z +ℤ pos z)

  get_chunk_p-local :
      (s : Section V N) (x y z : ℕ)
      → x < s.w_chunks
      → y < s.h_chunks
      → get_chunk_p s (z * s.h_chunks * s.w_chunks + y * s.w_chunks + x) ≡ local s x y z
  unfolding get_chunk_p
  get_chunk_p-local s x y z hx hy =
      let (a, b) = decode s.w_chunks s.h_chunks x y z hx hy in
      let row : z * s.h_chunks + y - z * s.h_chunks ≡ y = omega arith in
      let rest : z * s.h_chunks * s.w_chunks
            + y * s.w_chunks
            + x
            - z * s.h_chunks * s.w_chunks
            - y * s.w_chunks
          ≡ x =
        omega arith in
      rw (a, b, row, rest)

  get_chunk_i-local :
      (s : Section V N) (x y z : ℕ)
      → z * s.h_chunks * s.w_chunks + y * s.w_chunks + x < s.num_chunks
      → get_chunk_i s (local s x y z) ≡ some (z * s.h_chunks * s.w_chunks + y * s.w_chunks + x)
  unfolding get_chunk_i
  get_chunk_i-local s x y z h =
      rw
        (
          +ℤ-cancel s.lower.x (pos x),
          +ℤ-cancel s.lower.y (pos y),
          +ℤ-cancel s.lower.z (pos z),
          pos-*ℤ z s.h_chunks,
          pos-*ℤ (z * s.h_chunks) s.w_chunks,
          pos-*ℤ y s.w_chunks,
          pos-+ℤ (z * s.h_chunks * s.w_chunks) (y * s.w_chunks),
          pos-+ℤ (z * s.h_chunks * s.w_chunks + y * s.w_chunks) x,
        )
        (ground arith)

  Contains-local :
      (s : Section V N) (p : Vec)
      → IsSized s
      → Contains (contained_chunks s) p
      → (x : ℕ) × (y : ℕ) × (z : ℕ) × (x < s.w_chunks)
        × (y < s.h_chunks)
        × (z < s.d_chunks)
        × (p ≡ local s x y z)
  Contains-local s p v ((xl, xu), (yl, yu), (zl, zu)) = (
    pos_part (p.x -ℤ s.lower.x),
    pos_part (p.y -ℤ s.lower.y),
    pos_part (p.z -ℤ s.lower.z),
    offset_lt p.x s.lower.x s.w_chunks v.w_pos xl xu,
    offset_lt p.y s.lower.y s.h_chunks v.h_pos yl yu,
    offset_lt p.z s.lower.z s.d_chunks v.d_pos zl zu,
    ap3 (+ℤ-from p.x s.lower.x xl) (+ℤ-from p.y s.lower.y yl) (+ℤ-from p.z s.lower.z zl),
  )
    where
      ap3 : {a b : Vec} → a.x ≡ b.x → a.y ≡ b.y → a.z ≡ b.z → a ≡ b
      ap3 e f g = cc

  local-Contains :
      (s : Section V N) (x y z : ℕ)
      → x < s.w_chunks
      → y < s.h_chunks
      → z < s.d_chunks
      → Contains (contained_chunks s) (local s x y z)
  local-Contains s x y z hx hy hz = (
    (omega (arith, +ℤ_parts), omega (arith, +ℤ_parts)),
    (omega (arith, +ℤ_parts), omega (arith, +ℤ_parts)),
    (omega (arith, +ℤ_parts), omega (arith, +ℤ_parts)),
  )

  -- In a section, exactly one chunk has each index below the number of chunks, and it is what
  -- get_chunk_p() gives; for the chunks of the section get_chunk_i() gives that index.
  pub get_chunk_i-get_chunk_p_iff :
      (s : Section V N) (chunk_p : Vec) (i : ℕ)
      → IsSized s
      → i < s.num_chunks
      → (Contains (contained_chunks s) chunk_p × (get_chunk_i s chunk_p ≡ some i))
        ↔ (chunk_p ≡ get_chunk_p s i)
  get_chunk_i-get_chunk_p_iff s p i v h = (
    λ (inside, e).
        let (x, y, z, hx, hy, hz, same) = Contains-local s p v inside in
        let there =
          get_chunk_i-local s x y z
            (omega (arith, v.count, layer_lt s.w_chunks s.h_chunks s.d_chunks x y z hx hy hz)) in
        let index = some_injective (sym e ∙ ap (get_chunk_i s) same ∙ there) in
        same ∙ sym (get_chunk_p-local s x y z hx hy) ∙ sym (ap (get_chunk_p s) index),
    λ e.
        let (x, y, z, hx, hy, hz, index) =
          encode s.w_chunks s.h_chunks s.d_chunks i v.w_pos v.h_pos (omega (arith, v.count)) in
        let same = e ∙ ap (get_chunk_p s) index ∙ get_chunk_p-local s x y z hx hy in
        (
          subst (Contains (contained_chunks s)) (sym same) (local-Contains s x y z hx hy hz),
          ap (get_chunk_i s) same
              ∙ get_chunk_i-local s x y z (omega (arith, index))
              ∙ ap some (sym index),
        ),
  )
