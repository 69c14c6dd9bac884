-- ===== src/Voxel/Atlas/Search.antt =====
-- The searches of the atlas registry.
use buildat.Base.{
  ℕ, zero, suc, ◌+◌, ◌*◌, ◌<◌, ◌≡◌, ◌≢◌, refl, ap, ◌∙◌, inl, inr, none, some, List, [], ◌∷◌, not,
  ◌&&◌, arith, ltb, ◌==◌, length, get_elem?, Option-cases, Bool-cases,
}
use buildat.Voxel.Types.{
  IntVector2, vector_eq, AtlasSegmentReference, AtlasSegmentDefinition, segment_eq, segment_eq_iff,
}
use buildat.Voxel.Atlas.{AtlasDefinition, find_atlas, find_segment, find_reference}

-- An atlas that was found is of the size of the image, is not the undefined one and has room.
pub record IsRoomy (size : IntVector2) (d : AtlasDefinition) : Type 0 where
  pub defined : d.id ≢ 0
  pub resolution : d.segment_resolution ≡ size
  pub room : length d.segments < d.total_segments.x * d.total_segments.y

pub find_atlas-IsRoomy :
    (size : IntVector2) (i k : ℕ) (ds : List AtlasDefinition)
    → find_atlas size i ds ≡ some k
    → (j : ℕ) × (d : AtlasDefinition) × (k ≡ i + j) × (get_elem? ds j ≡ some d) × IsRoomy size d
unfolding find_atlas
find_atlas-IsRoomy size i k [] h = absurd (cc)
find_atlas-IsRoomy size i k (d ∷ ds) h =
    elim (Bool-cases (
      not (d.id == 0)
      && (vector_eq d.segment_resolution size
          && ltb (length d.segments) (d.total_segments.x * d.total_segments.y)))) [
            | inl here ↦ (
              0,
              d,
              ground arith,
              refl,
              record { defined = ground arith; resolution = ground arith; room = ground arith },
            )
            | inr later ↦
                let (j, d', e, at, roomy) = find_atlas-IsRoomy size (suc i) k ds (ground arith) in
                (suc j, d', omega arith, at, roomy)
          ]

-- Nothing is found only if there is no such atlas.
pub find_atlas-none :
    (size : IntVector2) (i : ℕ) (ds : List AtlasDefinition) (j : ℕ) (d : AtlasDefinition)
    → find_atlas size i ds ≡ none
    → get_elem? ds j ≡ some d
    → IsRoomy size d
    → ⊥
unfolding find_atlas
find_atlas-none size i [] j d h at r = cc
find_atlas-none size i (x ∷ ds) zero d h at r =
    let same : x ≡ d = ground arith in ground (arith, r.defined, r.resolution, r.room)
find_atlas-none size i (x ∷ ds) (suc j) d h at r =
    find_atlas-none size (suc i) ds j d (ground arith) at r

pub find_segment-get_elem? :
    (def : AtlasSegmentDefinition) (j k : ℕ) (ds : List AtlasSegmentDefinition)
    → find_segment def j ds ≡ some k
    → (m : ℕ) × (k ≡ j + m) × (get_elem? ds m ≡ some def)
unfolding find_segment
find_segment-get_elem? def j k [] h = absurd (cc)
find_segment-get_elem? def j k (d ∷ ds) h = elim (Bool-cases (segment_eq d def)) [
  | inl e ↦ (0, ground arith, ground (arith, segment_eq_iff d def))
  | inr ne ↦
      let (m, e, at) = find_segment-get_elem? def (suc j) k ds (ground arith) in
      (suc m, omega arith, at)
]

pub find_segment_finds :
    (def : AtlasSegmentDefinition) (j m : ℕ) (ds : List AtlasSegmentDefinition)
    → get_elem? ds m ≡ some def
    → find_segment def j ds ≢ none
unfolding find_segment
find_segment_finds def j m [] h = absurd (cc)
find_segment_finds def j zero (d ∷ ds) h = ground (arith, segment_eq_iff d def)
find_segment_finds def j (suc m) (d ∷ ds) h = ground (arith, find_segment_finds def (suc j) m ds h)

-- The reference that was found is to a segment that equals the definition.
pub find_reference-get_elem? :
    (def : AtlasSegmentDefinition) (ds : List AtlasDefinition) (ref : AtlasSegmentReference)
    → find_reference def ds ≡ some ref
    → (i : ℕ) × (a : AtlasDefinition) × (get_elem? ds i ≡ some a)
      × (ref.atlas_id ≡ a.id)
      × (get_elem? a.segments ref.segment_id ≡ some def)
unfolding find_reference
find_reference-get_elem? def [] ref h = absurd (cc)
find_reference-get_elem? def (a ∷ ds) ref h = elim (Option-cases (find_segment def 0 a.segments)) [
  | inr (k, e) ↦
      let (m, same, at) = find_segment-get_elem? def 0 k a.segments e in
      let found : ref ≡ record { atlas_id = a.id; segment_id = k } = ground arith in
      let index : k ≡ m = omega arith in
      (
        0,
        a,
        refl,
        ap (λ x. x.atlas_id) found,
        ap (λ x. get_elem? a.segments x.segment_id) found ∙ ap (get_elem? a.segments) index ∙ at,
      )
  | inl e ↦
      let (i, b, at, id, seg) = find_reference-get_elem? def ds ref (ground arith) in
      (suc i, b, at, id, seg)
]

-- A segment that is in some atlas is found.
pub find_reference_finds :
    (def : AtlasSegmentDefinition) (ds : List AtlasDefinition) (i m : ℕ) (a : AtlasDefinition)
    → get_elem? ds i ≡ some a
    → get_elem? a.segments m ≡ some def
    → find_reference def ds ≢ none
unfolding find_reference
find_reference_finds def [] i m a h s = absurd (cc)
find_reference_finds def (x ∷ ds) zero m a h s =
    let same : x ≡ a = ground arith in ground (arith, find_segment_finds def 0 m a.segments s)
find_reference_finds def (x ∷ ds) (suc i) m a h s =
    ground (arith, find_reference_finds def ds i m a h s)
