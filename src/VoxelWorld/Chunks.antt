-- ===== src/VoxelWorld/Chunks.antt =====
-- What is known of a voxel after another was written (builtin/voxelworld/voxelworld.cpp).
use buildat.Base.{
  ℕ, ◌<◌, ◌≡◌, ◌≢◌, sym, ap, ◌∙◌, some_injective, inl, inr, Bool, true, if◌then◌else◌, Bool-cases,
  arith, get_elem?,
}
use mathlib.Core.Path.{subst}
use buildat.Base.Map.{lookup}
use buildat.Base.Int.{ℤ, ◌-ℤ◌, eq_ℤ, -ℤ_parts}
use buildat.VoxelWorld.Coords.{
  Vec, vec_eq, vec_eq_iff, vec_eq_instance, minus, times, container_coord16, voxel_in_chunk,
}
use buildat.VoxelWorld.Containers.{Contains}
use buildat.VoxelWorld.Section.{ChunkBuffer, Section, get_chunk_i, get_chunk_p}
use buildat.VoxelWorld.Index.{IsSized, contained_chunks, get_chunk_i-get_chunk_p_iff}
use buildat.VoxelWorld.World.{Engine, World}
use buildat.VoxelWorld.Ready.{HasVolume, with_buffer, IsReady, chunk_of, section_of, place}
use buildat.VoxelWorld.Access.{IsWritten, IsWritten-IsReady_sibling, IsWritten-IsReady_stranger}

eq_ℤ-minus : (a b c : ℤ) → eq_ℤ (a -ℤ c) (b -ℤ c) ≡ eq_ℤ a b
eq_ℤ-minus a b c = ground (arith, -ℤ_parts a c, -ℤ_parts b c)

vec_eq-minus : (a b c : Vec) → vec_eq (minus a c) (minus b c) ≡ vec_eq a b
vec_eq-minus a b c = rw (eq_ℤ-minus a.x b.x c.x, eq_ℤ-minus a.y b.y c.y, eq_ℤ-minus a.z b.z c.z)

module _ {V N S D : Type 0} (engine : Engine V N S D) where
  -- How PolyVox's volumes behave at positions inside them.
  pub record IsVolume (inside : V → Vec → Bool) : Type 0 where
    pub get-set :
        (v : V) (a b : Vec) (x : ℕ)
        → inside v a ≡ true
        → inside v b ≡ true
        → engine.get_voxel_at (engine.set_voxel_at a x v) b
          ≡ (if vec_eq a b then x else engine.get_voxel_at v b)

  -- A voxel of a section that has its chunk: the chunk can be read, and the voxel is in its volume.
  pub record IsReadable (inside : V → Vec → Bool) (w : World V N S) (p : Vec) (i : ℕ)
      (s : Section V N) (b : ChunkBuffer V) (v : V) : Type 0 where
    pub ready : IsReady engine w (section_of w p) (chunk_of w p) i s b v
    pub sized : IsSized s
    pub in_range : i < s.num_chunks
    pub contained : Contains (contained_chunks s) (chunk_of w p)
    pub within : inside v (place w p) ≡ true

  HasVolume-unique :
      (s : Section V N) (b : ChunkBuffer V) (c : Vec) (scene : S) (u v : V)
      → HasVolume engine s b c scene u
      → HasVolume engine s b c scene v
      → u ≡ v
  HasVolume-unique s b c scene u v (inl e) (inl f) = some_injective (sym e ∙ f)
  HasVolume-unique s b c scene u v (inl e) (inr (f, _, _)) = absurd (ground (arith, e, f))
  HasVolume-unique s b c scene u v (inr (e, _, _)) (inl f) = absurd (ground (arith, e, f))
  HasVolume-unique s b c scene u v (inr (_, _, (d, at, e))) (inr (_, _, (d', at', e'))) =
      ground (arith, at, e, at', e')

  -- What is known of another voxel after a write.
  unfoldable pub IsKept : World V N S → World V N S → Vec → V → Type 0
  IsKept w w' q u =
      (j : ℕ) × (t : Section V N) × (c : ChunkBuffer V) × IsReady engine w' (section_of w q)
        (chunk_of w q) j t c u

  pub other_chunk :
      (inside : V → Vec → Bool) (p q : Vec) (w w' : World V N S) (i j : ℕ) (s t : Section V N)
      (b c g h : ChunkBuffer V) (v u : V)
      → IsReadable inside w p i s b v
      → IsReadable inside w q j t c u
      → IsWritten engine w (section_of w p) s i g h w'
      → chunk_of w q ≢ chunk_of w p
      → IsKept w w' q u
  unfolding IsKept
  other_chunk inside p q w w' i j s t b c g h v u rp rq wr ne =
      elim (Bool-cases (vec_eq (section_of w q) (section_of w p))) [
        | inr e ↦ (
          j,
          t,
          c,
          IsWritten-IsReady_stranger engine w w' (section_of w p) (section_of w q) (chunk_of w q) s
              t i j c g h u rq.ready wr
              (λ f. absurd (ground (arith, e, (vec_eq_iff (section_of w q) (section_of w p)).1 f))),
        )
        | inl e ↦
            let key = (vec_eq_iff (section_of w q) (section_of w p)).0 e in
            let same : t ≡ s =
              some_injective
                (sym rq.ready.section ∙ ap (λ k. lookup k w.sections) key ∙ rp.ready.section) in
            let here : chunk_of w p ≡ get_chunk_p s i =
              (get_chunk_i-get_chunk_p_iff s (chunk_of w p) i rp.sized rp.in_range).0
                (rp.contained, rp.ready.index) in
            let there : chunk_of w q ≡ get_chunk_p t j =
              (get_chunk_i-get_chunk_p_iff t (chunk_of w q) j rq.sized rq.in_range).0
                (rq.contained, rq.ready.index) in
            let apart : i ≢ j = λ f.
              ne (there ∙ ap (λ a. get_chunk_p a j) same ∙ ap (get_chunk_p s) (sym f) ∙ sym here) in
            let moved : IsReady engine w (section_of w p) (chunk_of w q) j s c u =
              subst (λ a. IsReady engine w (section_of w p) (chunk_of w q) j a c u) same
                (subst (λ k. IsReady engine w k (chunk_of w q) j t c u) key rq.ready) in
            (
              j,
              with_buffer (with_buffer s i g) i h,
              c,
              subst
                  (λ k.
                    IsReady engine w' k (chunk_of w q) j (with_buffer (with_buffer s i g) i h) c u)
                  (sym key)
                  (IsWritten-IsReady_sibling engine w w' (section_of w p) (chunk_of w q) s i j c g h
                    u moved wr apart),
            )
      ]

  pub same_chunk :
      (inside : V → Vec → Bool) (p q : Vec) (x : ℕ) (w : World V N S) (i j : ℕ) (s t : Section V N)
      (b c : ChunkBuffer V) (v u : V)
      → IsVolume inside
      → IsReadable inside w p i s b v
      → IsReadable inside w q j t c u
      → chunk_of w q ≡ chunk_of w p
      → engine.get_voxel_at (engine.set_voxel_at (place w p) x v) (place w q)
        ≡ (if vec_eq p q then x else engine.get_voxel_at u (place w q))
  same_chunk inside p q x w i j s t b c v u vol rp rq same =
      let key : section_of w q ≡ section_of w p =
        ap (λ a. container_coord16 a w.section_size_chunks) same in
      let sections : t ≡ s =
        some_injective
          (sym rq.ready.section ∙ ap (λ k. lookup k w.sections) key ∙ rp.ready.section) in
      let indices : j ≡ i = some_injective (
        sym rq.ready.index
        ∙ ap (λ a. get_chunk_i t a) same
        ∙ ap (λ a. get_chunk_i a (chunk_of w p)) sections
        ∙ rp.ready.index) in
      let buffers : c ≡ b = some_injective (
        sym rq.ready.buffer
        ∙ ap (λ a. get_elem? a.chunk_buffers j) sections
        ∙ ap (get_elem? s.chunk_buffers) indices
        ∙ rp.ready.buffer) in
      let volumes : u ≡ v =
        HasVolume-unique s b (chunk_of w p) w.scene u v
          (subst (λ a. HasVolume engine a b (chunk_of w p) w.scene u) sections
            (subst (λ a. HasVolume engine t a (chunk_of w p) w.scene u) buffers
              (subst (λ a. HasVolume engine t c a w.scene u) same rq.ready.volume)))
          rp.ready.volume in
      let equal : vec_eq (place w p) (place w q) ≡ vec_eq p q =
        ap (λ a. vec_eq (place w p) (voxel_in_chunk q a w.chunk_size_voxels)) same
        ∙ vec_eq-minus p q (times (chunk_of w p) w.chunk_size_voxels) in
      vol.get-set v (place w p) (place w q) x rp.within
        (subst (λ a. inside a (place w q) ≡ true) volumes rq.within)
      ∙ ap (λ a. if a then x else engine.get_voxel_at v (place w q)) equal
      ∙ ap (λ a. if vec_eq p q then x else engine.get_voxel_at a (place w q)) (sym volumes)
