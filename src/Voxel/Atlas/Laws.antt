-- ===== src/Voxel/Atlas/Laws.antt =====
-- References of the atlas registry stand for the segments that they were given for.
use buildat.Base.{
  ℕ, zero, suc, ◌≤◌, ◌≡◌, ◌≢◌, sym, ap, ◌∙◌, inl, inr, some, List, [], ◌∷◌, ◌++◌, arith, ◌==◌,
  length, get_elem?, set, Option-cases, Bool-cases, length-set, get_elem?-append_lt,
  get_elem?-append_self, get_elem?-some_lt, get_elem?-set_self, get_elem?-set_ne, some_injective,
}
use buildat.Voxel.Types.{AtlasSegmentReference, AtlasSegmentDefinition}
use buildat.Voxel.Atlas.{
  AtlasDefinition, AtlasRegistry, atlas_registry, get_atlas_definition, get_segment_definition,
}

-- Each atlas has its index as its id, and the undefined atlas has no segments.
pub record IsNumbered (ds : List AtlasDefinition) : Type 0 where
  pub numbered : (i : ℕ) (a : AtlasDefinition) → get_elem? ds i ≡ some a → a.id ≡ i
  pub undefined : (a : AtlasDefinition) → get_elem? ds 0 ≡ some a → a.segments ≡ []
  pub nonempty : 1 ≤ length ds

-- The segment of a reference, in the list of atlases.
pub record Refers (ds : List AtlasDefinition) (ref : AtlasSegmentReference)
    (def : AtlasSegmentDefinition) : Type 0 where
  pub atlas : AtlasDefinition
  pub defined : ref.atlas_id ≢ 0
  pub at : get_elem? ds ref.atlas_id ≡ some atlas
  pub segment : get_elem? atlas.segments ref.segment_id ≡ some def

pub Refers-get_segment_definition :
    (r : AtlasRegistry) (ref : AtlasSegmentReference) (def : AtlasSegmentDefinition)
    → Refers r.defs ref def
    → get_segment_definition ref r ≡ some def
unfolding get_segment_definition get_atlas_definition
Refers-get_segment_definition r ref def f = ground (
  arith,
  f.defined,
  f.at,
  f.segment,
  get_elem?-some_lt r.defs ref.atlas_id f.atlas f.at,
  get_elem?-some_lt f.atlas.segments ref.segment_id def f.segment,
)

pub get_segment_definition-Refers :
    (r : AtlasRegistry) (ref : AtlasSegmentReference) (def : AtlasSegmentDefinition)
    → get_segment_definition ref r ≡ some def
    → Refers r.defs ref def
unfolding get_segment_definition get_atlas_definition
get_segment_definition-Refers r ref def h = elim (Option-cases (get_elem? r.defs ref.atlas_id)) [
  | inl e ↦ absurd (ground arith)
  | inr (a, e) ↦ record { atlas = a; defined = λ z. ground arith; at = e; segment = ground arith }
]

-- One more segment in the atlas at index `i`.
abbrev pub with_segment :
    ℕ → AtlasDefinition → AtlasSegmentDefinition → List AtlasDefinition → List AtlasDefinition
with_segment i a def ds = set ds i (record a { segments = a.segments ++ def ∷ [] })

module _ (ds : List AtlasDefinition) (i : ℕ) (a : AtlasDefinition) (def : AtlasSegmentDefinition)
    (v : IsNumbered ds) (at : get_elem? ds i ≡ some a) (defined : i ≢ 0) where
  with_segment-at :
      get_elem? (with_segment i a def ds) i ≡ some (record a { segments = a.segments ++ def ∷ [] })
  with_segment-at = get_elem?-set_self ds i _ (get_elem?-some_lt ds i a at)

  pub with_segment-IsNumbered : IsNumbered (with_segment i a def ds)
  with_segment-IsNumbered = record {
    numbered = λ j b e. elim (Bool-cases (i == j)) [
      | inl same ↦
          let this : i ≡ j = ground arith in
          let new : record a { segments = a.segments ++ def ∷ [] } ≡ b =
            some_injective
              (sym with_segment-at ∙ ap (get_elem? (with_segment i a def ds)) this ∙ e) in
          sym (ap (λ x. x.id) new) ∙ v.numbered i a at ∙ this
      | inr other ↦ v.numbered j b (sym (get_elem?-set_ne ds i j _ (λ x. ground arith)) ∙ e)
    ];
    undefined = λ b e. v.undefined b (sym (get_elem?-set_ne ds i 0 _ defined) ∙ e);
    nonempty =
        omega (arith, v.nonempty, length-set ds i (record a { segments = a.segments ++ def ∷ [] }));
  }

  pub with_segment-Refers :
      (ref : AtlasSegmentReference) (d : AtlasSegmentDefinition)
      → Refers ds ref d
      → Refers (with_segment i a def ds) ref d
  with_segment-Refers ref d f = elim (Bool-cases (i == ref.atlas_id)) [
    | inl same ↦
        let this : i ≡ ref.atlas_id = ground arith in
        let one : a ≡ f.atlas = some_injective (sym at ∙ ap (get_elem? ds) this ∙ f.at) in
        let seg : get_elem? a.segments ref.segment_id ≡ some d =
          ap (λ x. get_elem? x.segments ref.segment_id) one ∙ f.segment in
        record {
          atlas = record a { segments = a.segments ++ def ∷ [] };
          defined = f.defined;
          at = sym (ap (get_elem? (with_segment i a def ds)) this) ∙ with_segment-at;
          segment =
              get_elem?-append_lt a.segments (def ∷ []) ref.segment_id
                (get_elem?-some_lt a.segments ref.segment_id d seg)
              ∙ seg;
        }
    | inr other ↦ record {
      atlas = f.atlas;
      defined = f.defined;
      at = get_elem?-set_ne ds i ref.atlas_id _ (λ x. ground arith) ∙ f.at;
      segment = f.segment;
    }
  ]

  pub with_segment-new :
      Refers (with_segment i a def ds) (record { atlas_id = i; segment_id = length a.segments }) def
  with_segment-new = record {
    atlas = record a { segments = a.segments ++ def ∷ [] };
    defined = defined;
    at = with_segment-at;
    segment = get_elem?-append_self a.segments def [];
  }

-- A new registry is numbered.
new_numbered : (i : ℕ) (a : AtlasDefinition) → get_elem? atlas_registry.defs i ≡ some a → a.id ≡ i
unfolding atlas_registry
new_numbered zero a e = ground arith
new_numbered (suc i) a e = absurd cc

new_undefined : (a : AtlasDefinition) → get_elem? atlas_registry.defs 0 ≡ some a → a.segments ≡ []
unfolding atlas_registry
new_undefined a e = ground arith

new_nonempty : 1 ≤ length atlas_registry.defs
unfolding atlas_registry
new_nonempty = omega arith

pub atlas_registry-IsNumbered : IsNumbered atlas_registry.defs
atlas_registry-IsNumbered = record {
  numbered = new_numbered;
  undefined = new_undefined;
  nonempty = new_nonempty;
}
