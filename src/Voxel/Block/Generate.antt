-- ===== src/Voxel/Block/Generate.antt =====
-- What add_block_generate_segments() adds (src/impl/block.cpp).
use mathlib.Core.Path.{subst}
use buildat.Base.{
  ℕ, zero, suc, ◌+◌, ◌*◌, ◌%◌, ◌<◌, ◌≡◌, refl, sym, ap, ◌∙◌, some, List, [], ◌∷◌, ◌++◌, length,
  get_elem?, arith, inl, inr, ◌⊎◌, length-append, set-resize, get_elem?-append_self,
}
use buildat.Base.Keys.{Bytes, bytes_eq_instance}
use buildat.Base.Map.{lookup, insert, lookup-insert_self}
use buildat.Voxel.Types.{VoxelDefinition, empty_name}
use buildat.Voxel.Registry.{id_mod, VoxelRegistry, Error, Result, add_voxel, get_by_id, ok, err}
use buildat.Voxel.Lookup.{IsRegistry, add_voxel-added, add_voxel-IsRegistry, add_voxel_keeps}
use buildat.Voxel.Block.{
  Vector3, BlockDefinition, BlockSourceDefinition, BlockRegistry, empty_block, row, layer,
  positions_from, positions, segment_voxel, add_voxels, Added, Failure, failed, not_six_textures,
  voxel_failed, add_block_with_predefined_segments, add_block_generate_segments, get_block,
  get_block_by_name,
}
use buildat.Voxel.Block as Block

pub length-row : (x n y z : ℕ) → length (row x n y z) ≡ n
unfolding row
length-row x zero y z = refl
length-row x (suc n) y z = ap suc (length-row (suc x) n y z)

pub length-layer : (size_x y n z : ℕ) → length (layer size_x y n z) ≡ n * size_x
unfolding layer
length-layer size_x y zero z = grind arith
length-layer size_x y (suc n) z =
    length-append (row 0 size_x y z) (layer size_x (suc y) n z)
    ∙ grind (arith, length-row 0 size_x y z, length-layer size_x (suc y) n z)

length-positions_from :
    (size_x size_y z n : ℕ) → length (positions_from size_x size_y z n) ≡ n * (size_y * size_x)
unfolding positions_from
length-positions_from size_x size_y z zero = grind arith
length-positions_from size_x size_y z (suc n) =
    length-append (layer size_x 0 size_y z) (positions_from size_x size_y (suc z) n)
    ∙ grind (arith, length-layer size_x 0 size_y z, length-positions_from size_x size_y (suc z) n)

-- The ids stand for the voxels of the segments, in their order; what was there is kept.
pub record IsGenerated (def : BlockSourceDefinition) (segis : List Vector3) (v : VoxelRegistry)
    (v' : VoxelRegistry) (vids : List ℕ) : Type 0 where
  pub registry : IsRegistry v'
  pub as_many : length vids ≡ length segis
  pub stands :
      (k : ℕ) (segi : Vector3)
      → get_elem? segis k ≡ some segi
      → (vid : ℕ) × (get_elem? vids k ≡ some vid)
        × (get_by_id vid v' ≡ some (record (segment_voxel def segi) { id = vid }))
  pub keeps : (i : ℕ) (d : VoxelDefinition) → get_by_id i v ≡ some d → get_by_id i v' ≡ some d

Result-cases {ℓ} :
    {A : Type ℓ} (x : Result A) → ((e : Error) × (x ≡ err e)) ⊎ ((a : A) × (x ≡ ok a))
Result-cases (ok a) = inr (a, refl)
Result-cases (err e) = inl (e, refl)

add_voxels_step :
    (def : BlockSourceDefinition) (segi : Vector3) (segis : List Vector3) (v v' : VoxelRegistry)
    (vids : List ℕ)
    → add_voxels def (segi ∷ segis) v ≡ (v', ok vids)
    → (v1 : VoxelRegistry) × (vid : ℕ) × (vids' : List ℕ) × (add_voxel (segment_voxel def segi) v
        ≡ ok (v1, vid))
      × (add_voxels def segis v1 ≡ (v', ok vids'))
      × (vid ∷ vids' ≡ vids)
unfolding add_voxels
add_voxels_step def segi segis v v' vids h =
    elim (Result-cases (add_voxel (segment_voxel def segi) v)) [
      | inl (e, fails) ↦ absurd (ground arith)
      | inr ((v1, vid), goes) ↦ elim (Result-cases (add_voxels def segis v1).1) [
        | inl (e, fails) ↦ absurd (ground arith)
        | inr (vids', rest) ↦ (v1, vid, vids', goes, ground arith, ground arith)
      ]
    ]

add_voxels-IsGenerated :
    (def : BlockSourceDefinition) (segis : List Vector3) (v v' : VoxelRegistry) (vids : List ℕ)
    → IsRegistry v
    → length v.defs + length segis < id_mod
    → add_voxels def segis v ≡ (v', ok vids)
    → IsGenerated def segis v v' vids
unfolding add_voxels
add_voxels-IsGenerated def [] v v' vids r room h =
    let same : v ≡ v' = ground arith in
    let none_there : [] ≡ vids = ground arith in
    record {
      registry = subst IsRegistry same r;
      as_many = ap length (sym none_there);
      stands = λ k segi e. absurd cc;
      keeps = λ i d e. subst (λ x. get_by_id i x ≡ some d) same e;
    }
add_voxels-IsGenerated def (segi ∷ segis) v v' vids r room h =
    let (v1, vid, vids', first, rest, all) = add_voxels_step def segi segis v v' vids h in
    let def' = segment_voxel def segi in
    let (_, grown, _) = add_voxel-added def' v v1 vid (omega arith) first in
    let more : length v1.defs ≡ length v.defs + 1 =
      ap (λ x. length x.defs) (sym grown)
      ∙ length-append v.defs (record def' { id = length v.defs } ∷ []) in
    let (r1, found) = add_voxel-IsRegistry def' v v1 vid r (omega arith) first in
    let g = add_voxels-IsGenerated def segis v1 v' vids' r1 (omega arith) rest in
    subst (IsGenerated def (segi ∷ segis) v v') all (record {
      registry = g.registry;
      as_many = ap suc g.as_many;
      stands = λ k s e. here v1 vid vids' found.0 g k s e;
      keeps = λ i d e.
          g.keeps i d ((add_voxel_keeps def' v v1 vid i empty_name d r (omega arith) first).0 e);
    })
  where
    here :
        (v1 : VoxelRegistry) (vid : ℕ) (vids' : List ℕ)
        → get_by_id vid v1 ≡ some (record (segment_voxel def segi) { id = vid })
        → IsGenerated def segis v1 v' vids'
        → (k : ℕ) (s : Vector3) → get_elem? (segi ∷ segis) k ≡ some s
        → (i : ℕ) × (get_elem? (vid ∷ vids') k ≡ some i)
          × (get_by_id i v' ≡ some (record (segment_voxel def s) { id = i }))
    here v1 vid vids' found g zero s e = (
      vid,
      refl,
      subst (λ x. get_by_id vid v' ≡ some (record (segment_voxel def x) { id = vid }))
          (ground arith) (g.keeps vid _ found),
    )
    here v1 vid vids' found g (suc k) s e = g.stands k s e

length-positions : (size : Vector3) → length (positions size) ≡ size.z * (size.y * size.x)
unfolding positions
length-positions size = length-positions_from size.x size.y 0 size.z

-- A block that was added is found by its id and by its name.
abbrev IsFound : BlockDefinition → ℕ → BlockRegistry → Type 0
IsFound def id r =
    (get_block id r ≡ some (record def { id = id }))
    × (get_block_by_name def.name r ≡ some (record def { id = id }))

predefined_defs :
    (def : BlockDefinition) (r : BlockRegistry)
    → length r.defs + 1 < id_mod
    → ((add_block_with_predefined_segments def r).0.defs
        ≡ r.defs ++ record def { id = length r.defs } ∷ [])
      × ((add_block_with_predefined_segments def r).0.name_to_id
          ≡ insert def.name (length r.defs) r.name_to_id)
      × ((add_block_with_predefined_segments def r).1 ≡ length r.defs)
unfolding add_block_with_predefined_segments
predefined_defs def r room =
    let n = length r.defs in
    let here : n % id_mod ≡ n = omega arith in
    let next : (n + 1) % id_mod ≡ suc n = omega arith in
    rw (here, next, set-resize r.defs empty_block (record def { id = n })) (refl, refl, refl)

get_block-last :
    (def : BlockDefinition) (r r' : BlockRegistry)
    → r'.defs ≡ r.defs ++ def ∷ []
    → get_block (length r.defs) r' ≡ some def
unfolding get_block
get_block-last def r r' e =
    let at : get_elem? r'.defs (length r.defs) ≡ some def =
      ap (λ l. get_elem? l (length r.defs)) e ∙ get_elem?-append_self r.defs def [] in
    let longer : length r'.defs ≡ length r.defs + 1 =
      ap length e ∙ length-append r.defs (def ∷ []) in
    ground arith

by_name :
    (name : Bytes) (id : ℕ) (r : BlockRegistry)
    → lookup name r.name_to_id ≡ some id
    → get_block_by_name name r ≡ get_block id r
unfolding get_block_by_name
by_name name id r e = ground arith

predefined-IsFound :
    (def : BlockDefinition) (r : BlockRegistry)
    → length r.defs + 1 < id_mod
    → let (r', id) = add_block_with_predefined_segments def r in IsFound def id r'
predefined-IsFound def r room =
    let r' = (add_block_with_predefined_segments def r).0 in
    let (ds, names, id) = predefined_defs def r room in
    let by_id = get_block-last (record def { id = length r.defs }) r r' ds in
    let entered : lookup def.name r'.name_to_id ≡ some (length r.defs) =
      ap (lookup def.name) names ∙ lookup-insert_self def.name (length r.defs) r.name_to_id in
    subst (λ k. IsFound def k r') (sym id)
      (by_id, by_name def.name (length r.defs) r' entered ∙ by_id)

generate_step :
    (def : BlockSourceDefinition) (r r' : BlockRegistry) (v v' : VoxelRegistry) (id : ℕ)
    → add_block_generate_segments def r v ≡ (v', Block.added r' id)
    → (vids : List ℕ) × (add_voxels def (positions def.size) v ≡ (v', ok vids))
      × (add_block_with_predefined_segments
            (record {
              name = def.name;
              id = 0;
              num_rotations = def.num_rotations;
              size = def.size;
              segments = vids;
            })
            r
          ≡ (r', id))
unfolding add_block_generate_segments
generate_step def r r' v v' id h = elim (Result-cases (add_voxels def (positions def.size) v).1) [
  | inl (e, fails) ↦ absurd (ground arith)
  | inr (vids, goes) ↦ (vids, ground arith, ground arith)
]

-- The definition has six textures if a block was added.
pub side_textures_six :
    (def : BlockSourceDefinition) (r r' : BlockRegistry) (v v' : VoxelRegistry) (id : ℕ)
    → add_block_generate_segments def r v ≡ (v', Block.added r' id)
    → length def.side_textures ≡ 6
unfolding add_block_generate_segments
side_textures_six def r r' v v' id h = ground arith

-- The block that was added has an id for the voxel of each of its positions, in their order.
pub add_block_generate_segments-IsGenerated :
    (def : BlockSourceDefinition) (r r' : BlockRegistry) (v v' : VoxelRegistry) (id : ℕ)
    → IsRegistry v
    → length v.defs + def.size.z * (def.size.y * def.size.x) < id_mod
    → length r.defs + 1 < id_mod
    → add_block_generate_segments def r v ≡ (v', Block.added r' id)
    → (block : BlockDefinition) × (get_block id r' ≡ some block)
      × (get_block_by_name def.name r' ≡ some block)
      × (block ≡ record {
        name = def.name;
        id = id;
        num_rotations = def.num_rotations;
        size = def.size;
        segments = block.segments;
      })
      × (length block.segments ≡ def.size.z * (def.size.y * def.size.x))
      × IsGenerated def (positions def.size) v v' block.segments
add_block_generate_segments-IsGenerated def r r' v v' id reg room room' h =
    let (vids, goes, put) = generate_step def r r' v v' id h in
    let plain : BlockDefinition = record {
      name = def.name;
      id = 0;
      num_rotations = def.num_rotations;
      size = def.size;
      segments = vids;
    } in
    let g =
      add_voxels-IsGenerated def (positions def.size) v v' vids reg
        (omega (arith, length-positions def.size)) goes in
    let (by_id, by_name) : IsFound plain id r' =
      subst (λ o. IsFound plain o.1 o.0) put (predefined-IsFound plain r room') in
    (record plain { id = id }, by_id, by_name, refl, g.as_many ∙ length-positions def.size, g)
