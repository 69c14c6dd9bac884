-- ===== src/Voxel/Cache/Textures.antt =====
-- What the cached textures stand for (update_cache_textures() in src/impl/voxel.cpp).
use mathlib.Core.Path.{subst}
use buildat.Base.{
  ℕ, ◌<◌, ◌≡◌, ◌≢◌, refl, sym, ap, ◌∙◌, Option, none, some, List, [], ◌∷◌, Bool, true, false, ◌||◌,
  ◌==◌, arith, length, get_elem?, get_or, set, length-set, get_elem?-set_self, get_elem?-set_ne,
  Bool-cases, Option-cases, ◌⊎◌, inl, inr,
}
use buildat.Base.Keys.{Bytes, bytes_eq, bytes_eq_iff}
use buildat.Voxel.Types.{
  IntVector2, AtlasSegmentReference, AtlasSegmentDefinition, VoxelDefinition, CachedVoxelDefinition,
  empty_segment, no_segment,
}
use buildat.Voxel.Atlas.{AtlasRegistry, ok, find_or_add_segment, get_segment_definition}
use buildat.Voxel.Atlas.Laws.{IsNumbered}
use buildat.Voxel.Atlas.References.{Result-cases, find_or_add_segment-Gives}
use buildat.Voxel.Cache.{
  Textured, lods, faces, lod_segment, set_texture, set_lod_texture, clear_lod_textures, update_lods,
  update_face, update_faces, update_cache_textures,
}

-- The references that were good are good for the same segments.
pub record Keeps (a : AtlasRegistry) (a' : AtlasRegistry) : Type 0 where
  pub numbered : IsNumbered a'.defs
  pub kept :
      (ref : AtlasSegmentReference) (d : AtlasSegmentDefinition)
      → get_segment_definition ref a ≡ some d
      → get_segment_definition ref a' ≡ some d

-- The texture of the face `i` stands for the segment.
abbrev pub Stands : ℕ → AtlasSegmentDefinition → List AtlasSegmentReference → AtlasRegistry → Type 0
Stands i seg textures a =
    (ref : AtlasSegmentReference) × (get_elem? textures i ≡ some ref)
    × (get_segment_definition ref a ≡ some seg)

Stands-Keeps :
    (i : ℕ) (seg : AtlasSegmentDefinition) (ts : List AtlasSegmentReference) (a a' : AtlasRegistry)
    → Keeps a a'
    → Stands i seg ts a
    → Stands i seg ts a'
Stands-Keeps i seg ts a a' k (ref, at, is) = (ref, at, k.kept ref seg is)

clear_lod_textures_keeps :
    (i : ℕ) (js : List ℕ) (cache : CachedVoxelDefinition)
    → (clear_lod_textures i js cache).textures ≡ cache.textures
unfolding clear_lod_textures set_lod_texture
clear_lod_textures_keeps i [] cache = refl
clear_lod_textures_keeps i (j ∷ js) cache =
    clear_lod_textures_keeps i js (set_lod_texture j i no_segment cache)

module _ (images : Bytes → Option IntVector2) where
  found-Keeps :
      (seg : AtlasSegmentDefinition) (a a' : AtlasRegistry) (ref : AtlasSegmentReference)
      → IsNumbered a.defs
      → find_or_add_segment images seg a ≡ (a', ok ref)
      → Keeps a a' × (get_segment_definition ref a' ≡ some seg)
  found-Keeps seg a a' ref v e =
      let (gives, kept, numbered, _) = find_or_add_segment-Gives images seg a a' ref v e in
      (record { numbered = numbered; kept = kept }, gives)

  update_lods-Keeps :
      (i : ℕ) (seg : AtlasSegmentDefinition) (js : List ℕ) (cache : CachedVoxelDefinition)
      (a : AtlasRegistry)
      → IsNumbered a.defs
      → (update_lods images i seg js cache a).failed ≡ none
      → let t = update_lods images i seg js cache a in
        Keeps a t.atlases × (t.cache.textures ≡ cache.textures)
  unfolding update_lods set_lod_texture
  update_lods-Keeps i seg [] cache a v h = (record { numbered = v; kept = λ ref d g. g }, refl)
  update_lods-Keeps i seg (j ∷ js) cache a v h =
      elim (Result-cases (find_or_add_segment images (lod_segment j i seg) a).1) [
        | inl (e, fails) ↦ absurd (ground arith)
        | inr (ref, goes) ↦
            let a1 = (find_or_add_segment images (lod_segment j i seg) a).0 in
            let (k, _) = found-Keeps (lod_segment j i seg) a a1 ref v (ground arith) in
            let (k', same) =
              update_lods-Keeps i seg js (set_lod_texture j i ref cache) a1 k.numbered
                (ground arith) in
            rw (goes, update_lods)
              (record { numbered = k'.numbered; kept = λ r d g. k'.kept r d (k.kept r d g) }, same)
      ]

  -- What a round of the loop over the faces does, if it throws nothing.
  record IsFace (i : ℕ) (seg : AtlasSegmentDefinition) (cache : CachedVoxelDefinition)
      (a : AtlasRegistry) (t : Textured) : Type 0 where
    keeps : Keeps a t.atlases
    ref : AtlasSegmentReference
    textures : t.cache.textures ≡ set cache.textures i ref
    stands : seg.resource_name ≢ [] → get_segment_definition ref t.atlases ≡ some seg

  update_face-IsFace :
      (i : ℕ) (seg : AtlasSegmentDefinition) (cache : CachedVoxelDefinition) (a : AtlasRegistry)
      → IsNumbered a.defs
      → (update_face images i seg cache a).failed ≡ none
      → IsFace i seg cache a (update_face images i seg cache a)
  unfolding update_face set_texture
  update_face-IsFace i seg cache a v h = elim (Bool-cases (bytes_eq seg.resource_name [])) [
    | inl empty ↦
        rw (empty, update_face)
          (record {
            keeps = record { numbered = v; kept = λ ref d g. g };
            ref = no_segment;
            textures = clear_lod_textures_keeps i lods (set_texture i no_segment cache);
            stands = λ full. absurd (full ((bytes_eq_iff seg.resource_name []).0 empty));
          })
    | inr full ↦ elim (Result-cases (find_or_add_segment images seg a).1) [
      | inl (e, fails) ↦ absurd (ground arith)
      | inr (ref, goes) ↦
          let a1 = (find_or_add_segment images seg a).0 in
          let (k, gives) = found-Keeps seg a a1 ref v (ground arith) in
          let (k', same) =
            update_lods-Keeps i seg lods (set_texture i ref cache) a1 k.numbered (ground arith) in
          rw (full, goes, update_face)
            (record {
              keeps = record { numbered = k'.numbered; kept = λ r d g. k'.kept r d (k.kept r d g) };
              ref = ref;
              textures = same;
              stands = λ f. k'.kept ref seg gives;
            })
    ]
  ]

-- A face in a list of faces.
unfoldable is_face : ℕ → List ℕ → Bool
is_face i [] = false
is_face i (j ∷ js) = (i == j) || is_face i js

-- The texture of a face stands for the definition's, if that names an image.
abbrev Settled : ℕ → VoxelDefinition → List AtlasSegmentReference → AtlasRegistry → Type 0
Settled i def ts a =
    let seg = get_or def.textures i empty_segment in seg.resource_name ≢ [] → Stands i seg ts a

module _ (images : Bytes → Option IntVector2) where
  -- A round settles its face and leaves the others.
  own-Settled :
      (i j : ℕ) (def : VoxelDefinition) (cache : CachedVoxelDefinition) (a : AtlasRegistry)
      (t : Textured)
      → IsFace images j (get_or def.textures j empty_segment) cache a t
      → i < length cache.textures
      → i ≡ j
      → Settled i def t.cache.textures t.atlases
  own-Settled i j def cache a t f inside same =
      subst (λ k. Settled k def t.cache.textures t.atlases) (sym same)
        (λ full. (
          f.ref,
          ap (λ l. get_elem? l j) f.textures
              ∙ get_elem?-set_self cache.textures j f.ref
                  (subst (λ k. k < length cache.textures) same inside),
          f.stands full,
        ))

  round-Settled :
      (i j : ℕ) (def : VoxelDefinition) (cache : CachedVoxelDefinition) (a : AtlasRegistry)
      (t : Textured)
      → IsFace images j (get_or def.textures j empty_segment) cache a t
      → i < length cache.textures
      → Settled i def cache.textures a
      → Settled i def t.cache.textures t.atlases
  round-Settled i j def cache a t f inside old = λ full. elim (Bool-cases (j == i)) [
    | inl same ↦ own-Settled i j def cache a t f inside (ground arith) full
    | inr apart ↦
        let (ref, at, is) = Stands-Keeps i _ cache.textures a t.atlases f.keeps (old full) in
        (
          ref,
          ap (λ l. get_elem? l i) f.textures
              ∙ get_elem?-set_ne cache.textures j i f.ref (λ e. ground arith)
              ∙ at,
          is,
        )
  ]

  update_faces-Settled :
      (i : ℕ) (js : List ℕ) (def : VoxelDefinition) (cache : CachedVoxelDefinition)
      (a : AtlasRegistry)
      → IsNumbered a.defs
      → i < length cache.textures
      → (is_face i js ≡ true) ⊎ Settled i def cache.textures a
      → (update_faces images js def cache a).failed ≡ none
      → let t = update_faces images js def cache a in
        Settled i def t.cache.textures t.atlases × IsNumbered t.atlases.defs
  unfolding update_faces is_face
  update_faces-Settled i [] def cache a v inside (inl listed) h = absurd cc
  update_faces-Settled i [] def cache a v inside (inr old) h = (old, v)
  update_faces-Settled i (j ∷ js) def cache a v inside known h =
      let seg = get_or def.textures j empty_segment in
      let t = update_face images j seg cache a in
      elim (Option-cases t.failed) [
        | inr (e, fails) ↦ absurd (ground arith)
        | inl goes ↦
            let f = update_face-IsFace images j seg cache a v goes in
            let inside' : i < length t.cache.textures =
              omega (arith, ap length f.textures, length-set cache.textures j f.ref) in
            rw (goes, update_faces)
              (update_faces-Settled i js def t.cache t.atlases f.keeps.numbered inside'
                (next i j js def cache a t f inside known) (ground arith))
      ]
    where
      next :
          (i j : ℕ) (js : List ℕ) (def : VoxelDefinition) (cache : CachedVoxelDefinition)
          (a : AtlasRegistry) (t : Textured)
          → IsFace images j (get_or def.textures j empty_segment) cache a t
          → i < length cache.textures
          → (is_face i (j ∷ js) ≡ true) ⊎ Settled i def cache.textures a
          → (is_face i js ≡ true) ⊎ Settled i def t.cache.textures t.atlases
      next i j js def cache a t f inside (inr old) =
          inr (round-Settled i j def cache a t f inside old)
      next i j js def cache a t f inside (inl listed) = elim (Bool-cases (i == j)) [
        | inl same ↦ inr (own-Settled i j def cache a t f inside (ground arith))
        | inr apart ↦ inl (ground arith)
      ]

  six_faces : (i : ℕ) → i < 6 → is_face i faces ≡ true
  unfolding is_face
  six_faces i h = ground arith

  -- If update_cache_textures() throws nothing for a cached definition with six textures, then each
  -- of the six textures of the definition that names an image has a reference in the cached
  -- definition, and the atlas registry gives that texture's segment back for it.
  pub update_cache_textures-Stands :
      (i : ℕ) (def : VoxelDefinition) (cache : CachedVoxelDefinition) (a : AtlasRegistry)
      → IsNumbered a.defs
      → length cache.textures ≡ 6
      → i < 6
      → (update_cache_textures images cache def a).failed ≡ none
      → (get_or def.textures i empty_segment).resource_name ≢ []
      → let t = update_cache_textures images cache def a in
        Stands i (get_or def.textures i empty_segment) t.cache.textures t.atlases
  unfolding update_cache_textures
  update_cache_textures-Stands i def cache a v width one h full =
      (update_faces-Settled i faces def cache a v (omega arith) (inl (six_faces i one)) h).0 full
