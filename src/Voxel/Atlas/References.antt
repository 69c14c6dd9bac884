-- ===== src/Voxel/Atlas/References.antt =====
-- find_or_add_segment() as a whole.
use mathlib.Core.Path.{subst, subst₂}
use buildat.Base.{
  ℕ, suc, ◌/◌, ◌≡◌, ◌≢◌, refl, sym, ap, ◌∙◌, ◌⊎◌, inl, inr, Option, none, some, List, [], ◌∷◌, ◌++◌,
  arith, length, get_elem?, set, resize, Option-cases, length-append, get_elem?-append_lt,
  get_elem?-append_self, get_elem?-append_one, get_elem?-some_lt, set-resize, set-append_self,
}
use buildat.Base.Keys.{Bytes}
use buildat.Voxel.Types.{IntVector2, AtlasSegmentReference, AtlasSegmentDefinition, empty_segment}
use buildat.Voxel.Atlas.{
  AtlasDefinition, AtlasRegistry, AtlasCache, empty_atlas, empty_segment_cache, Error, Result, ok,
  err, Outcome, find_atlas, segment_cache, cache_at, put_segment, create_atlas, find_reference,
  get_segment_definition, add_segment, find_or_add_segment, max_res,
}
use buildat.Voxel.Atlas.Search.{find_atlas-IsRoomy, find_reference-get_elem?, find_reference_finds}
use buildat.Voxel.Atlas.Laws.{
  IsNumbered, Refers, Refers-get_segment_definition, get_segment_definition-Refers, with_segment,
  with_segment-IsNumbered, with_segment-Refers, with_segment-new,
}

-- A call that gave the reference `ref` for `def`.
pub record Gives (def : AtlasSegmentDefinition) (r : AtlasRegistry) (r' : AtlasRegistry)
    (ref : AtlasSegmentReference) : Type 0 where
  pub numbered : IsNumbered r'.defs
  pub refers : Refers r'.defs ref def
  pub keeps :
      (ref' : AtlasSegmentReference) (d : AtlasSegmentDefinition)
      → Refers r.defs ref' d
      → Refers r'.defs ref' d

pub Result-cases {ℓ} :
    {A : Type ℓ} (x : Result A) → ((e : Error) × (x ≡ err e)) ⊎ ((a : A) × (x ≡ ok a))
Result-cases (ok a) = inr (a, refl)
Result-cases (err e) = inl (e, refl)

-- Whether the coordinates fail or not, the segment is in the atlas; the reference is to its end.
pub put_segment-ok :
    (i : ℕ) (a : AtlasDefinition) (def : AtlasSegmentDefinition) (r r' : AtlasRegistry)
    (ref : AtlasSegmentReference)
    → get_elem? r.defs i ≡ some a
    → put_segment i def r ≡ (r', ok ref)
    → (r'.defs ≡ with_segment i a def r.defs)
      × (ref ≡ record { atlas_id = a.id; segment_id = length a.segments })
unfolding put_segment
put_segment-ok i a def r r' ref at h =
    let n = length a.segments in
    let cache = cache_at a.id r in
    let cache' : AtlasCache = record cache {
      segments = resize (suc n) empty_segment_cache cache.segments;
    } in
    elim (Result-cases (segment_cache n def cache')) [
      | inl (e, fails) ↦ absurd (ground (arith, at, fails))
      | inr (c, goes) ↦ ground (arith, set-resize a.segments empty_segment def)
    ]

put_segment-Gives :
    (i : ℕ) (a : AtlasDefinition) (def : AtlasSegmentDefinition) (r r' : AtlasRegistry)
    (ref : AtlasSegmentReference)
    → IsNumbered r.defs
    → i ≢ 0
    → get_elem? r.defs i ≡ some a
    → put_segment i def r ≡ (r', ok ref)
    → Gives def r r' ref
put_segment-Gives i a def r r' ref v one at h =
    let (ds, e) = put_segment-ok i a def r r' ref at h in
    let id = v.numbered i a at in
    let e' : record { atlas_id = i; segment_id = length a.segments } ≡ ref =
      ap (λ k. record { atlas_id = k; segment_id = length a.segments }) (sym id) ∙ sym e in
    record {
      numbered = subst IsNumbered (sym ds) (with_segment-IsNumbered r.defs i a def v at one);
      refers =
          subst (λ l. Refers l ref def) (sym ds)
            (subst (λ x. Refers (with_segment i a def r.defs) x def) e'
              (with_segment-new r.defs i a def v at one));
      keeps = λ ref' d f.
          subst (λ l. Refers l ref' d) (sym ds)
            (with_segment-Refers r.defs i a def v at one ref' d f);
    }

-- A new atlas is the last, under the next id, and is empty.
pub create_atlas-ok :
    (size : IntVector2) (def : AtlasSegmentDefinition) (r r' : AtlasRegistry) (i : ℕ)
    → create_atlas size def r ≡ (r', ok i)
    → (a : AtlasDefinition) × (r'.defs ≡ r.defs ++ a ∷ [])
      × (i ≡ length r.defs)
      × (a.id ≡ i)
      × (a.segments ≡ [])
      × (a.segment_resolution
          ≡ record { x = size.x / def.total_segments.x; y = size.y / def.total_segments.y })
unfolding create_atlas
create_atlas-ok size def r r' i h =
    let n = length r.defs in
    let res : IntVector2 = record {
      x = size.x / def.total_segments.x;
      y = size.y / def.total_segments.y;
    } in
    let numbered : AtlasDefinition = record empty_atlas { id = n } in
    let final : AtlasDefinition = record numbered {
      segment_resolution = res;
      total_segments = record { x = max_res / res.x / 2; y = max_res / res.y / 2 };
    } in
    let grown : set (set (resize (suc n) empty_atlas r.defs) n numbered) n final
        ≡ r.defs ++ final ∷ [] =
      ap (λ l. set l n final) (set-resize r.defs empty_atlas numbered)
      ∙ set-append_self r.defs numbered final in
    (final, ground (arith, grown), ground arith, ground arith, refl, refl)

appended-IsNumbered :
    (ds : List AtlasDefinition) (a : AtlasDefinition)
    → IsNumbered ds
    → a.id ≡ length ds
    → IsNumbered (ds ++ a ∷ [])
appended-IsNumbered ds a v id = record {
  numbered = λ i b e. elim (get_elem?-append_one ds a i b e) [
    | inl (_, old) ↦ v.numbered i b old
    | inr (last, new) ↦ sym (ap (λ x. x.id) new) ∙ id ∙ sym last
  ];
  undefined = λ b e. v.undefined b (sym (get_elem?-append_lt ds (a ∷ []) 0 v.nonempty) ∙ e);
  nonempty = omega (arith, v.nonempty, length-append ds (a ∷ []));
}

appended-Refers :
    (ds : List AtlasDefinition) (a : AtlasDefinition) (ref : AtlasSegmentReference)
    (d : AtlasSegmentDefinition)
    → Refers ds ref d
    → Refers (ds ++ a ∷ []) ref d
appended-Refers ds a ref d f = record {
  atlas = f.atlas;
  defined = f.defined;
  at =
      get_elem?-append_lt ds (a ∷ []) ref.atlas_id (get_elem?-some_lt ds ref.atlas_id f.atlas f.at)
      ∙ f.at;
  segment = f.segment;
}

-- A new atlas, and the segment in it.
create_put-Gives :
    (size : IntVector2) (def : AtlasSegmentDefinition) (r r1 r' : AtlasRegistry) (i : ℕ)
    (ref : AtlasSegmentReference)
    → IsNumbered r.defs
    → create_atlas size def r ≡ (r1, ok i)
    → put_segment i def r1 ≡ (r', ok ref)
    → Gives def r r' ref
create_put-Gives size def r r1 r' i ref v made put =
    let (a, ds, last, id, _, _) = create_atlas-ok size def r r1 i made in
    let v1 : IsNumbered r1.defs =
      subst IsNumbered (sym ds) (appended-IsNumbered r.defs a v (id ∙ last)) in
    let at : get_elem? r1.defs i ≡ some a =
      ap (get_elem? r1.defs) last
      ∙ ap (λ l. get_elem? l (length r.defs)) ds
      ∙ get_elem?-append_self r.defs a [] in
    let g = put_segment-Gives i a def r1 r' ref v1 (λ z. omega (arith, v.nonempty)) at put in
    record {
      numbered = g.numbered;
      refers = g.refers;
      keeps = λ ref' d f.
          g.keeps ref' d
            (subst (λ l. Refers l ref' d) (sym ds) (appended-Refers r.defs a ref' d f));
    }

module _ (images : Bytes → Option IntVector2) where
  add_segment-Gives :
      (def : AtlasSegmentDefinition) (r r' : AtlasRegistry) (ref : AtlasSegmentReference)
      → IsNumbered r.defs
      → add_segment images def r ≡ (r', ok ref)
      → Gives def r r' ref
  unfolding add_segment
  add_segment-Gives def r r' ref v h = elim (Option-cases (images def.resource_name)) [
    | inl e ↦ absurd (ground arith)
    | inr (size, image) ↦ elim (Option-cases (find_atlas size 0 r.defs)) [
      | inr (i, found) ↦
          let (j, a, e, at, roomy) = find_atlas-IsRoomy size 0 i r.defs found in
          let same : i ≡ j = omega arith in
          let at' = ap (get_elem? r.defs) same ∙ at in
          let id = v.numbered i a at' in
          put_segment-Gives i a def r r' ref v (λ z. roomy.defined (id ∙ z)) at' (ground arith)
      | inl missing ↦ elim (Result-cases (create_atlas size def r).1) [
        | inl (e, fails) ↦ absurd (ground arith)
        | inr (i, made) ↦
            create_put-Gives size def r (create_atlas size def r).0 r' i ref v (ground arith)
              (ground arith)
      ]
    ]
  ]

  found_result :
      (def : AtlasSegmentDefinition) (r r' : AtlasRegistry) (ref found : AtlasSegmentReference)
      → find_reference def r.defs ≡ some found
      → find_or_add_segment images def r ≡ (r', ok ref)
      → r ≡ r'
  unfolding find_or_add_segment
  found_result def r r' ref found e h = ground arith

  found_reference :
      (def : AtlasSegmentDefinition) (r r' : AtlasRegistry) (ref found : AtlasSegmentReference)
      → find_reference def r.defs ≡ some found
      → find_or_add_segment images def r ≡ (r', ok ref)
      → found ≡ ref
  unfolding find_or_add_segment
  found_reference def r r' ref found e h = ground arith

  not_found :
      (def : AtlasSegmentDefinition) (r : AtlasRegistry) (o : Outcome)
      → find_reference def r.defs ≡ none
      → find_or_add_segment images def r ≡ o
      → add_segment images def r ≡ o
  unfolding find_or_add_segment
  not_found def r o e h = ground arith

  undefined_empty :
      (ds : List AtlasDefinition)
      → IsNumbered ds
      → (i : ℕ) (a : AtlasDefinition) (ref : AtlasSegmentReference) (def : AtlasSegmentDefinition)
      → i ≡ 0
      → get_elem? ds i ≡ some a
      → get_elem? a.segments ref.segment_id ≡ some def
      → ⊥
  undefined_empty ds v i a ref def z at seg =
      let empty = v.undefined a (sym (ap (get_elem? ds) z) ∙ at) in
      let none_there : ◌≡◌ {A = Option AtlasSegmentDefinition} none (some def) =
        sym (ap (λ l. get_elem? l ref.segment_id) empty) ∙ seg in
      cc

  -- A segment that is there is found.
  again :
      (def : AtlasSegmentDefinition) (r : AtlasRegistry) {ref : AtlasSegmentReference}
      → Refers r.defs ref def
      → (find_or_add_segment images def r).0 ≡ r
  unfolding find_or_add_segment
  again def r {ref} f =
      ground
        (arith, find_reference_finds def r.defs ref.atlas_id ref.segment_id f.atlas f.at f.segment)

  -- If find_or_add_segment() returns a reference, then get_segment_definition() gives the segment
  -- back for it; every reference that was good before stands for the same segment as before; the
  -- atlases stay numbered; and another call for the segment adds nothing.
  pub find_or_add_segment-Gives :
      (def : AtlasSegmentDefinition) (r r' : AtlasRegistry) (ref : AtlasSegmentReference)
      → IsNumbered r.defs
      → find_or_add_segment images def r ≡ (r', ok ref)
      → (get_segment_definition ref r' ≡ some def)
        × ((ref' : AtlasSegmentReference) (d : AtlasSegmentDefinition)
            → get_segment_definition ref' r ≡ some d
            → get_segment_definition ref' r' ≡ some d)
        × IsNumbered r'.defs
        × ((find_or_add_segment images def r').0 ≡ r')
  find_or_add_segment-Gives def r r' ref v h = elim (Option-cases (find_reference def r.defs)) [
    | inr (found, e) ↦
        let same : r ≡ r' = found_result def r r' ref found e h in
        let (i, a, at, id, seg) = find_reference-get_elem? def r.defs found e in
        let one : found ≡ ref = found_reference def r r' ref found e h in
        let index = id ∙ v.numbered i a at in
        let f : Refers r.defs found def = record {
          atlas = a;
          defined = λ z. undefined_empty r.defs v i a found def (sym index ∙ z) at seg;
          at = ap (get_elem? r.defs) index ∙ at;
          segment = seg;
        } in
        subst₂
          (λ x y.
            (get_segment_definition y x ≡ some def)
            × ((ref' : AtlasSegmentReference) (d : AtlasSegmentDefinition)
                → get_segment_definition ref' r ≡ some d
                → get_segment_definition ref' x ≡ some d)
            × IsNumbered x.defs
            × ((find_or_add_segment images def x).0 ≡ x))
          same one (Refers-get_segment_definition r found def f, λ ref' d g. g, v, again def r f)
    | inl e ↦
        let g = add_segment-Gives def r r' ref v (not_found def r (r', ok ref) e h) in
        (
          Refers-get_segment_definition r' ref def g.refers,
          λ ref' d k.
              Refers-get_segment_definition r' ref' d
                (g.keeps ref' d (get_segment_definition-Refers r ref' d k)),
          g.numbered,
          again def r' g.refers,
        )
  ]
