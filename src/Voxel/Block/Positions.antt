-- ===== src/Voxel/Block/Positions.antt =====
-- The order of the segments in the three loops of add_block_generate_segments() (src/impl/block.cpp).
use buildat.Base.{
  ℕ, zero, suc, ◌+◌, ◌*◌, ◌<◌, ◌≡◌, refl, ap, ◌∙◌, some, List, [], ◌∷◌, ◌++◌, length, get_elem?,
  arith, get_elem?-append_lt,
}
use buildat.Voxel.Block.{Vector3, row, layer, positions_from, positions}
use buildat.Voxel.Block.Generate.{length-row, length-layer}

get_elem?-append_at :
    (xs ys : List Vector3) (i j : ℕ) → i ≡ length xs + j → get_elem? (xs ++ ys) i ≡ get_elem? ys j
get_elem?-append_at [] ys i j e = ap (get_elem? ys) (omega (arith, e))
get_elem?-append_at (x ∷ xs) ys zero j e = absurd (omega arith)
get_elem?-append_at (x ∷ xs) ys (suc i) j e = get_elem?-append_at xs ys i j (omega arith)

row_lt : (w h x y : ℕ) → x < w → y < h → y * w + x < h * w
row_lt w h x y hx hy = grind arith

get_elem?-row :
    (x n y z k a : ℕ)
    → k < n
    → a ≡ x + k
    → get_elem? (row x n y z) k ≡ some (record { x = a; y = y; z = z })
unfolding row
get_elem?-row x zero y z k a h e = absurd (omega arith)
get_elem?-row x (suc n) y z zero a h e =
    ap (λ b. some (record { x = b; y = y; z = z })) (omega arith)
get_elem?-row x (suc n) y z (suc k) a h e =
    get_elem?-row (suc x) n y z k a (omega arith) (omega arith)

get_elem?-layer :
    (size_x y n z j x i b : ℕ)
    → x < size_x
    → j < n
    → i ≡ j * size_x + x
    → b ≡ y + j
    → get_elem? (layer size_x y n z) i ≡ some (record { x = x; y = b; z = z })
unfolding layer
get_elem?-layer size_x y zero z j x i b hx h ei eb = absurd (omega arith)
get_elem?-layer size_x y (suc n) z zero x i b hx h ei eb =
    let this : i ≡ x = grind arith in
    let same : y ≡ b = omega arith in
    get_elem?-append_lt (row 0 size_x y z) (layer size_x (suc y) n z) i
      (omega (arith, length-row 0 size_x y z))
    ∙ get_elem?-row 0 size_x y z i x (omega arith) (omega arith)
    ∙ ap (λ c. some (record { x = x; y = c; z = z })) same
get_elem?-layer size_x y (suc n) z (suc j) x i b hx h ei eb =
    get_elem?-append_at (row 0 size_x y z) (layer size_x (suc y) n z) i (j * size_x + x)
      (grind (arith, length-row 0 size_x y z))
    ∙ get_elem?-layer size_x (suc y) n z j x (j * size_x + x) b hx (omega arith) refl (omega arith)

get_elem?-positions_from :
    (size_x size_y z n k y x i c : ℕ)
    → x < size_x
    → y < size_y
    → k < n
    → i ≡ k * (size_y * size_x) + (y * size_x + x)
    → c ≡ z + k
    → get_elem? (positions_from size_x size_y z n) i ≡ some (record { x = x; y = y; z = c })
unfolding positions_from
get_elem?-positions_from size_x size_y z zero k y x i c hx hy h ei ec = absurd (omega arith)
get_elem?-positions_from size_x size_y z (suc n) zero y x i c hx hy h ei ec =
    let this : i ≡ y * size_x + x = grind arith in
    let same : z ≡ c = omega arith in
    get_elem?-append_lt (layer size_x 0 size_y z) (positions_from size_x size_y (suc z) n) i
      (omega (arith, row_lt size_x size_y x y hx hy, length-layer size_x 0 size_y z))
    ∙ get_elem?-layer size_x 0 size_y z y x i y hx hy this (omega arith)
    ∙ ap (λ d. some (record { x = x; y = y; z = d })) same
get_elem?-positions_from size_x size_y z (suc n) (suc k) y x i c hx hy h ei ec =
    let next = k * (size_y * size_x) + (y * size_x + x) in
    get_elem?-append_at (layer size_x 0 size_y z) (positions_from size_x size_y (suc z) n) i next
      (grind (arith, length-layer size_x 0 size_y z))
    ∙ get_elem?-positions_from size_x size_y (suc z) n k y x next c hx hy (omega arith) refl
        (omega arith)

-- The index of a position: x counts single segments, y rows, and z layers.
pub get_elem?-positions :
    (size : Vector3) (x y z : ℕ)
    → x < size.x
    → y < size.y
    → z < size.z
    → get_elem? (positions size) (z * (size.y * size.x) + (y * size.x + x))
      ≡ some (record { x = x; y = y; z = z })
unfolding positions
get_elem?-positions size x y z hx hy hz =
    get_elem?-positions_from size.x size.y 0 size.z z y x (z * (size.y * size.x) + (y * size.x + x))
      z hx hy hz refl (omega arith)
