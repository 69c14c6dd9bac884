-- ===== src/Voxel/Restore.antt =====
-- deserialize() rebuilds the registry whose definitions were saved.
use mathlib.Core.Path.{subst, ap₂}
use mathlib.Core.List.{append_assoc, append-nil}
use buildat.Base.{
  ℕ, zero, suc, ◌+◌, ◌≤◌, ◌<◌, ◌≡◌, refl, sym, ap, ◌∙◌, inl, inr, Option, none, some, List, [], ◌∷◌,
  ◌++◌, arith, length, get_elem?, drop, Option-cases, length-append, get_elem?-append_self,
  get_elem?-append_lt, get_elem?-some_lt,
}
use buildat.Base.Map.{lookup}
use buildat.Voxel.Types.{VoxelDefinition, empty_definition, voxel_name_eq}
use buildat.Voxel.Registry.{id_mod, VoxelRegistry, ok, clear, get_all, get_by_id, add_all, restore}
use buildat.Voxel.Lookup.{IsRegistry, added, added-IsRegistry, add_voxel-ok, get_by_id_lem}

pub clear-IsRegistry : (r : VoxelRegistry) → IsRegistry (clear r)
unfolding clear lookup
clear-IsRegistry r = record {
  undefined = omega arith;
  room = omega arith;
  numbered = λ i d one e. absurd (past i d one e);
  named = λ n i e. absurd (cc);
}
  where
    past : (i : ℕ) (d : VoxelDefinition) → 1 ≤ i → get_elem? (empty_definition ∷ []) i ≡ some d → ⊥
    past zero d one e = absurd (omega arith)
    past (suc i) d one e = cc

-- The registry `r` was saved; `x` is what has been rebuilt of it, the definitions `pre`.
record IsPart (r x : VoxelRegistry) (a b : VoxelDefinition) (pre ds : List VoxelDefinition)
    : Type 0 where
  valid : IsRegistry x
  whole : r.defs ≡ a ∷ (pre ++ ds)
  part : x.defs ≡ b ∷ pre

module _ (r : VoxelRegistry) (v : IsRegistry r) (a b : VoxelDefinition) where
  next_numbered :
      (x : VoxelRegistry) (pre ds : List VoxelDefinition) (d : VoxelDefinition)
      → IsPart r x a b pre (d ∷ ds)
      → (d.id ≡ length x.defs) × (lookup d.name r.name_to_id ≡ some (length x.defs))
  next_numbered x pre ds d p =
      let n = length x.defs in
      let at : get_elem? r.defs n ≡ some d =
        rw (p.whole, p.part) (get_elem?-append_self (a ∷ pre) d ds) in
      v.numbered n d (p.valid.undefined) at

  next_fresh :
      (x : VoxelRegistry) (pre ds : List VoxelDefinition) (d : VoxelDefinition)
      → IsPart r x a b pre (d ∷ ds)
      → lookup d.name x.name_to_id ≡ none
  next_fresh x pre ds d p = elim (Option-cases (lookup d.name x.name_to_id)) [
    | inl e ↦ e
    | inr (j, e) ↦ absurd (clash j e)
  ]
    where
      clash : (j : ℕ) → lookup d.name x.name_to_id ≡ some j → ⊥
      clash j e =
          let (one, (d', at, name)) = p.valid.named d.name j e in
          let before = get_elem?-some_lt x.defs j d' at in
          let in_r : get_elem? r.defs j ≡ some d' = shared j d' one at in
          let old = (v.numbered j d' one in_r).1 in
          let new = (next_numbered x pre ds d p).1 in
          let both : ◌≡◌ {A = Option ℕ} (some j) (some (length x.defs)) =
            sym old ∙ ap (λ m. lookup m r.name_to_id) name ∙ new in
          ground arith
        where
          shared :
              (i : ℕ) (e' : VoxelDefinition)
              → 1 ≤ i
              → get_elem? x.defs i ≡ some e'
              → get_elem? r.defs i ≡ some e'
          shared zero e' one h = absurd (omega arith)
          shared (suc i) e' one h =
              let h' : get_elem? pre i ≡ some e' = rw (p.part) at h in
              rw (p.whole) (get_elem?-append_lt pre (d ∷ ds) i (get_elem?-some_lt pre i e' h') ∙ h')

  next_room :
      (x : VoxelRegistry) (pre ds : List VoxelDefinition) (d : VoxelDefinition)
      → IsPart r x a b pre (d ∷ ds)
      → length x.defs + 1 < id_mod
  next_room x pre ds d p =
      omega (arith, ap length p.whole, ap length p.part, length-append pre (d ∷ ds), v.room)

  next-IsPart :
      (x : VoxelRegistry) (pre ds : List VoxelDefinition) (d : VoxelDefinition)
      → IsPart r x a b pre (d ∷ ds)
      → length x.defs + 1 < id_mod
      → IsPart r (added d x) a b (pre ++ d ∷ []) ds
  next-IsPart x pre ds d p room =
      let n = length x.defs in
      let renumbered : record d { id = n } ≡ d =
        λ i. record d { id = sym (next_numbered x pre ds d p).0 i } in
      record {
        valid = added-IsRegistry d x room (next_fresh x pre ds d p) p.valid;
        whole = p.whole ∙ ap (◌∷◌ a) (sym (append_assoc pre (d ∷ []) ds));
        part = ap₂ (λ xs e. xs ++ e ∷ []) p.part renumbered;
      }

  add_all-restores :
      (ds pre : List VoxelDefinition) (x : VoxelRegistry)
      → IsPart r x a b pre ds
      → (x' : VoxelRegistry) × (add_all ds x ≡ ok x') × IsPart r x' a b (pre ++ ds) []
  unfolding add_all
  add_all-restores [] pre x p =
      (x, refl, subst (λ (l : List VoxelDefinition). IsPart r x a b l []) (sym (append-nil pre)) p)
  add_all-restores (d ∷ ds) pre x p =
      let room = next_room x pre ds d p in
      let goes =
        add_voxel-ok d x room (inr (next_numbered x pre ds d p).0) (next_fresh x pre ds d p) in
      let (x', e, p') =
        add_all-restores ds (pre ++ d ∷ []) (added d x) (next-IsPart x pre ds d p room) in
      (
        x',
        rw (goes, add_all) e,
        subst (λ (l : List VoxelDefinition). IsPart r x' a b l []) (append_assoc pre (d ∷ []) ds)
            p',
      )

head_of : (r : VoxelRegistry) → IsRegistry r → (a : VoxelDefinition) × (r.defs ≡ a ∷ drop 1 r.defs)
head_of r v = split r.defs v.undefined
  where
    split :
        (ds : List VoxelDefinition) → 1 ≤ length ds → (a : VoxelDefinition) × (ds ≡ a ∷ drop 1 ds)
    split [] h = absurd (omega arith)
    split (d ∷ ds) h = (d, refl)

-- A registry is rebuilt from its definitions: in any registry, restoring what get_all() gave
-- throws nothing, leaves a registry in order, and every id from 1 on stands for what it stood for.
pub restore-get_all :
    (r s : VoxelRegistry)
    → IsRegistry r
    → (x : VoxelRegistry) × (restore (get_all r) s ≡ ok x)
      × IsRegistry x
      × (get_all x ≡ get_all r)
      × ((i : ℕ) → 1 ≤ i → get_by_id i x ≡ get_by_id i r)
unfolding restore get_all clear
restore-get_all r s v =
    let (a, e) = head_of r v in
    let start : IsPart r (clear s) a empty_definition [] (drop 1 r.defs) = record {
      valid = clear-IsRegistry s;
      whole = e;
      part = refl;
    } in
    let (x, done, p) = add_all-restores r v a empty_definition (drop 1 r.defs) [] (clear s) start in
    let rest : drop 1 x.defs ≡ drop 1 r.defs = ap (drop 1) p.part in
    (
      x,
      done,
      p.valid,
      rest,
      λ i one.
          get_by_id_lem i x
          ∙ same_at x r i one rest (head_of x p.valid).1 e
          ∙ sym (get_by_id_lem i r),
    )
  where
    same_at :
        (x r : VoxelRegistry) (i : ℕ)
        → 1 ≤ i
        → drop 1 x.defs ≡ drop 1 r.defs
        → {b a : VoxelDefinition} → x.defs ≡ b ∷ drop 1 x.defs
        → r.defs ≡ a ∷ drop 1 r.defs
        → get_elem? x.defs i ≡ get_elem? r.defs i
    same_at x r zero one h hx hr = absurd (omega arith)
    same_at x r (suc i) one h hx hr =
        ap (λ l. get_elem? l (suc i)) hx
        ∙ ap (λ l. get_elem? l i) h
        ∙ sym (ap (λ l. get_elem? l (suc i)) hr)
