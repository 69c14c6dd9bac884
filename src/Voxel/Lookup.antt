-- ===== src/Voxel/Lookup.antt =====
-- What the voxel registry promises: ids and names find the definitions that were added.
use buildat.Base.{
  ℕ, suc, ◌+◌, ◌%◌, ◌≤◌, ◌<◌, ◌≡◌, ◌≢◌, sym, ◌∙◌, ◌⊎◌, inl, inr, none, some, [], ◌∷◌, ◌++◌, true,
  false, not, ◌&&◌, arith, ◌==◌, length, get_elem?, set-resize, Option-cases, Bool-cases,
  length-append, get_elem?-append_lt, get_elem?-append_self, get_elem?-append_one,
  get_elem?-some_lt, get_elem?-ge,
}
use mathlib.Core.Path.{subst, subst₂}
use buildat.Base.Map.{lookup, insert, lookup-insert, lookup-insert_self}
use buildat.Voxel.Types.{
  VoxelName, VoxelDefinition, empty_definition, name_eq, voxel_name_eq, name_eq_iff,
}
use buildat.Voxel.Registry.{
  id_mod, VoxelRegistry, wrong_id, already_exists, ok, err, add_voxel, store_voxel, get_by_id,
  get_by_name,
}

-- Element 0 stands for the undefined id. Every other element has its index as its id, and its name
-- is entered with that id; no other name is entered.
pub record IsRegistry (r : VoxelRegistry) : Type 0 where
  pub undefined : 1 ≤ length r.defs
  pub room : length r.defs < id_mod
  pub numbered :
      (i : ℕ) (d : VoxelDefinition)
      → 1 ≤ i
      → get_elem? r.defs i ≡ some d
      → (d.id ≡ i) × (lookup d.name r.name_to_id ≡ some i)
  pub named :
      (n : VoxelName) (i : ℕ)
      → lookup n r.name_to_id ≡ some i
      → (1 ≤ i) × ((d : VoxelDefinition) × (get_elem? r.defs i ≡ some d) × (d.name ≡ n))

-- The state after a definition was added.
abbrev pub added : VoxelDefinition → VoxelRegistry → VoxelRegistry
added def r = record {
  defs = r.defs ++ record def { id = length r.defs } ∷ [];
  cached_defs = r.cached_defs;
  name_to_id = insert def.name (length r.defs) r.name_to_id;
  is_dirty = true;
}

store_voxel-added :
    (def : VoxelDefinition) (r : VoxelRegistry)
    → length r.defs + 1 < id_mod
    → store_voxel def (length r.defs) r ≡ added def r
unfolding store_voxel
store_voxel-added def r room =
    let n = length r.defs in
    let next : (n + 1) % id_mod ≡ suc n = omega arith in
    rw (next, set-resize r.defs empty_definition (record def { id = n }))

-- While there are ids left, a call of add_voxel() throws if the definition has an id that is not
-- the next one; if not, it throws if the name is there; if not, it adds the definition.
add_voxel-cases :
    (def : VoxelDefinition) (r : VoxelRegistry)
    → length r.defs + 1 < id_mod
    → ((def.id ≢ 0) × (def.id ≢ length r.defs) × (add_voxel def r ≡ err wrong_id))
      ⊎ ((i : ℕ) × ((def.id ≡ 0) ⊎ (def.id ≡ length r.defs))
          × (lookup def.name r.name_to_id ≡ some i)
          × (add_voxel def r ≡ err already_exists))
      ⊎ (((def.id ≡ 0) ⊎ (def.id ≡ length r.defs))
          × (lookup def.name r.name_to_id ≡ none)
          × (add_voxel def r ≡ ok (added def r, length r.defs)))
unfolding add_voxel
add_voxel-cases def r room =
    let n = length r.defs in
    let here : n % id_mod ≡ n = omega arith in
    let stored = store_voxel-added def r room in
    elim (Bool-cases (not (def.id == 0) && not (n == def.id))) [
      | inl wrong ↦ inl (ground arith, ground arith, rw here (ground arith))
      | inr right ↦ elim (Option-cases (lookup def.name r.name_to_id)) [
        | inr (i, e) ↦ inr (inl (i, ground arith, e, rw here (ground arith)))
        | inl e ↦ inr (inr (ground arith, e, rw here (ground (arith, stored))))
      ]
    ]

pub add_voxel-ok :
    (def : VoxelDefinition) (r : VoxelRegistry)
    → length r.defs + 1 < id_mod
    → (def.id ≡ 0) ⊎ (def.id ≡ length r.defs)
    → lookup def.name r.name_to_id ≡ none
    → add_voxel def r ≡ ok (added def r, length r.defs)
add_voxel-ok def r room id fresh = elim (add_voxel-cases def r room) [
  | inl (a, b, e) ↦ absurd (elim id [ inl c ↦ a c | inr c ↦ b c ])
  | inr (inl (i, _, e, _)) ↦ absurd (ground arith)
  | inr (inr (_, _, e)) ↦ e
]

pub added-IsRegistry :
    (def : VoxelDefinition) (r : VoxelRegistry)
    → length r.defs + 1 < id_mod
    → lookup def.name r.name_to_id ≡ none
    → IsRegistry r
    → IsRegistry (added def r)
added-IsRegistry def r room fresh v =
    let n = length r.defs in
    let def' : VoxelDefinition = record def { id = n } in
    record {
      undefined = omega (arith, length-append r.defs (def' ∷ []));
      room = omega (arith, length-append r.defs (def' ∷ []));
      numbered = λ i d one e. elim (get_elem?-append_one r.defs def' i d e) [
        | inl (old, e') ↦
            let (id, l) = v.numbered i d one e' in
            (
              id,
              ground (
                arith,
                lookup-insert def.name d.name n r.name_to_id,
                name_eq_iff def.name d.name,
              ),
            )
        | inr (new, e') ↦ (
          ground arith,
          ground (arith, lookup-insert def.name d.name n r.name_to_id, name_eq_iff def.name d.name),
        )
      ];
      named = λ m i e. elim (Bool-cases (name_eq def.name m)) [
        | inl same ↦
            let here : n ≡ i = ground (arith, lookup-insert def.name m n r.name_to_id) in
            (
              omega (arith, v.undefined),
              (
                def',
                rw (← here) (get_elem?-append_self r.defs def' []),
                (name_eq_iff def.name m).0 same,
              ),
            )
        | inr other ↦
            let (one, (d, e', name)) =
              v.named m i (ground (arith, lookup-insert def.name m n r.name_to_id)) in
            (
              one,
              (
                d,
                get_elem?-append_lt r.defs (def' ∷ []) i (get_elem?-some_lt r.defs i d e') ∙ e',
                name,
              ),
            )
      ];
    }

pub get_by_id_lem : (i : ℕ) (r : VoxelRegistry) → get_by_id i r ≡ get_elem? r.defs i
unfolding get_by_id
get_by_id_lem i r = ground (arith, get_elem?-ge r.defs i)

get_by_name_lem :
    (n : VoxelName) (i : ℕ) (r : VoxelRegistry)
    → lookup n r.name_to_id ≡ some i
    → get_by_name n r ≡ get_elem? r.defs i
unfolding get_by_name
get_by_name_lem n i r e = rw (e, get_by_name) (get_by_id_lem i r)

-- The definition is found by its new id and by its name, with that id in it.
abbrev pub Found : VoxelDefinition → ℕ → VoxelRegistry → Type 0
Found def id r =
    (get_by_id id r ≡ some (record def { id = id }))
    × (get_by_name def.name r ≡ some (record def { id = id }))

added-Found : (def : VoxelDefinition) (r : VoxelRegistry) → Found def (length r.defs) (added def r)
added-Found def r =
    let n = length r.defs in
    let at_end = get_elem?-append_self r.defs (record def { id = n }) [] in
    (
      get_by_id_lem n (added def r) ∙ at_end,
      get_by_name_lem def.name n (added def r) (lookup-insert_self def.name n r.name_to_id)
          ∙ at_end,
    )

added_by_id :
    (def : VoxelDefinition) (r : VoxelRegistry) (i : ℕ) (d : VoxelDefinition)
    → get_by_id i r ≡ some d
    → get_by_id i (added def r) ≡ some d
added_by_id def r i d e =
    let e' = sym (get_by_id_lem i r) ∙ e in
    get_by_id_lem i (added def r)
    ∙ get_elem?-append_lt r.defs (record def { id = length r.defs } ∷ []) i
        (get_elem?-some_lt r.defs i d e')
    ∙ e'

added_by_name :
    (def : VoxelDefinition) (r : VoxelRegistry) (n : VoxelName) (d : VoxelDefinition)
    → lookup def.name r.name_to_id ≡ none
    → get_by_name n r ≡ some d
    → get_by_name n (added def r) ≡ some d
unfolding get_by_name
added_by_name def r n d fresh e = elim (Option-cases (lookup n r.name_to_id)) [
  | inl missing ↦ absurd (ground arith)
  | inr (i, l) ↦
      rw (lookup-insert def.name n (length r.defs) r.name_to_id, other l, l, get_by_name)
        (added_by_id def r i d (ground arith))
]
  where
    other : {i : ℕ} → lookup n r.name_to_id ≡ some i → name_eq def.name n ≡ false
    other l = elim (Bool-cases (name_eq def.name n)) [
      | inl same ↦ absurd (ground (arith, name_eq_iff def.name n))
      | inr ne ↦ ne
    ]

-- If add_voxel() returns an id, it has added the definition.
pub add_voxel-added :
    (def : VoxelDefinition) (r r' : VoxelRegistry) (id : ℕ)
    → length r.defs + 1 < id_mod
    → add_voxel def r ≡ ok (r', id)
    → (lookup def.name r.name_to_id ≡ none) × (added def r ≡ r') × (length r.defs ≡ id)
add_voxel-added def r r' id room h = elim (add_voxel-cases def r room) [
  | inl (_, _, e) ↦ absurd (ground arith)
  | inr (inl (_, _, _, e)) ↦ absurd (ground arith)
  | inr (inr (_, fresh, e)) ↦ (fresh, ground arith, ground arith)
]

-- If add_voxel() returns an id, while there are ids left, it keeps a registry in order, and the
-- definition is found afterwards by that id and by its name, with that id in it.
pub add_voxel-IsRegistry :
    (def : VoxelDefinition) (r r' : VoxelRegistry) (id : ℕ)
    → IsRegistry r
    → length r.defs + 1 < id_mod
    → add_voxel def r ≡ ok (r', id)
    → IsRegistry r' × Found def id r'
add_voxel-IsRegistry def r r' id v room h =
    let (fresh, same, here) = add_voxel-added def r r' id room h in
    subst₂ (λ x k. IsRegistry x × Found def k x) same here
      (added-IsRegistry def r room fresh v, added-Found def r)

-- If add_voxel() returns an id, while there are ids left, then in a registry in order every
-- definition that was found by an id or by a name is found by it as before.
pub add_voxel_keeps :
    (def : VoxelDefinition) (r r' : VoxelRegistry) (id i : ℕ) (n : VoxelName) (d : VoxelDefinition)
    → IsRegistry r
    → length r.defs + 1 < id_mod
    → add_voxel def r ≡ ok (r', id)
    → (get_by_id i r ≡ some d → get_by_id i r' ≡ some d)
      × (get_by_name n r ≡ some d → get_by_name n r' ≡ some d)
add_voxel_keeps def r r' id i n d v room h =
    let (fresh, same, here) = add_voxel-added def r r' id room h in
    subst
      (λ x.
        (get_by_id i r ≡ some d → get_by_id i x ≡ some d)
        × (get_by_name n r ≡ some d → get_by_name n x ≡ some d))
      same (λ e. added_by_id def r i d e, λ e. added_by_name def r n d fresh e)
