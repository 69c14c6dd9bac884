-- ===== src/Voxel/Atlas/Reuse.antt =====
-- Which atlases add_segment() uses again (src/impl/atlas.cpp).
use native.Mathlib.Nat.{div-lt_self}
use mathlib.Core.Path.{subst}
use buildat.Base.{
  ℕ, suc, ◌/◌, ◌≤◌, ◌<◌, ◌≡◌, sym, ap, ◌∙◌, inl, inr, Option, none, some, List, [], ◌∷◌, ◌++◌,
  false, arith, ◌==◌, length, get_elem?, set, get_elem?-append_self, set-append_self,
}
use buildat.Base.Keys.{Bytes}
use buildat.Voxel.Types.{IntVector2, vector_eq, AtlasSegmentReference, AtlasSegmentDefinition}
use buildat.Voxel.Atlas.{
  AtlasDefinition, AtlasRegistry, ok, find_atlas, put_segment, create_atlas, add_segment,
}
use buildat.Voxel.Atlas.References.{Result-cases, put_segment-ok, create_atlas-ok}

find_atlas-append :
    (size : IntVector2) (a : AtlasDefinition) (i : ℕ) (ds : List AtlasDefinition)
    → find_atlas size i ds ≡ none
    → vector_eq a.segment_resolution size ≡ false
    → find_atlas size i (ds ++ a ∷ []) ≡ none
unfolding find_atlas
find_atlas-append size a i [] h other = ground arith
find_atlas-append size a i (d ∷ ds) h other = ground (arith, find_atlas-append size a (suc i) ds)

smaller :
    (size total : IntVector2)
    → 1 ≤ size.x
    → 2 ≤ total.x
    → (n : ℕ) → n ≡ size.x / total.x
    → (n == size.x) ≡ false
smaller size total one two n e =
    let less : size.x / total.x < size.x = div-lt_self one two in ground arith

created_put :
    (size : IntVector2) (def : AtlasSegmentDefinition) (r r1 r' : AtlasRegistry) (i : ℕ)
    (ref : AtlasSegmentReference)
    → 1 ≤ size.x
    → 2 ≤ def.total_segments.x
    → find_atlas size 0 r.defs ≡ none
    → create_atlas size def r ≡ (r1, ok i)
    → put_segment i def r1 ≡ (r', ok ref)
    → find_atlas size 0 r'.defs ≡ none
created_put size def r r1 r' i ref one two missing made put =
    let (a, ds, last, _, _, res) = create_atlas-ok size def r r1 i made in
    let a' : AtlasDefinition = record a { segments = a.segments ++ def ∷ [] } in
    let at : get_elem? r1.defs i ≡ some a =
      ap (get_elem? r1.defs) last
      ∙ ap (λ l. get_elem? l (length r.defs)) ds
      ∙ get_elem?-append_self r.defs a [] in
    let (ds', _) = put_segment-ok i a def r1 r' ref at put in
    let whole : r'.defs ≡ r.defs ++ a' ∷ [] =
      ds'
      ∙ ap (λ l. set l i a') ds
      ∙ ap (λ k. set (r.defs ++ a ∷ []) k a') last
      ∙ set-append_self r.defs a a' in
    let narrow =
      smaller size def.total_segments one two a'.segment_resolution.x (ap (λ v. v.x) res) in
    subst (λ l. find_atlas size 0 l ≡ none) (sym whole)
      (find_atlas-append size a' 0 r.defs missing (ground arith))

module _ (images : Bytes → Option IntVector2) where
  -- If no atlas is found for the size of an image, and add_segment() then makes one for a segment
  -- of that image which is a half of its width or less, then none is found for the size of that
  -- image afterwards either: the next segment of it does not go into the new atlas.
  pub add_segment-find_atlas :
      (def : AtlasSegmentDefinition) (r r' : AtlasRegistry) (size : IntVector2)
      (ref : AtlasSegmentReference)
      → images def.resource_name ≡ some size
      → 1 ≤ size.x
      → 2 ≤ def.total_segments.x
      → find_atlas size 0 r.defs ≡ none
      → add_segment images def r ≡ (r', ok ref)
      → find_atlas size 0 r'.defs ≡ none
  unfolding add_segment
  add_segment-find_atlas def r r' size ref image one two missing h =
      elim (Result-cases (create_atlas size def r).1) [
        | inl (e, fails) ↦ absurd (ground arith)
        | inr (i, made) ↦
            created_put size def r (create_atlas size def r).0 r' i ref one two missing
              (ground arith) (ground arith)
      ]
