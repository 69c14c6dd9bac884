-- ===== src/VoxelWorld/Voxels.antt =====
-- Reading and writing voxels (set_voxel() and get_voxel() of builtin/voxelworld/voxelworld.cpp).
use buildat.Base.{
  ℕ, ◌≤◌, ◌<◌, ◌≡◌, ◌≢◌, sym, ap, ◌∙◌, inl, inr, Bool, false, if◌then◌else◌, Bool-cases, arith,
}
use mathlib.Core.Path.{subst}
use buildat.VoxelWorld.Coords.{
  Vec, vec_eq, vec_eq_iff, vec_eq_instance, container_vec, container_coord16, voxel_in_chunk,
}
use buildat.VoxelWorld.Section.{ChunkBuffer, Section}
use buildat.VoxelWorld.World.{Engine, World}
use buildat.VoxelWorld.Ready.{with_buffer, IsReady, chunk_of, section_of, place}
use buildat.VoxelWorld.Access.{get_voxel-IsReady, set_voxel-IsWritten, IsWritten-IsReady}
use buildat.VoxelWorld.Buffers.{returned, set_voxel, get_voxel}
use buildat.VoxelWorld.Chunks.{IsVolume, IsReadable, IsKept, other_chunk, same_chunk}

module _ {V N S D : Type 0} (engine : Engine V N S D) where
  -- Reading in a world with the same sizes.
  read_after :
      (q : Vec) (later : ℕ) (w w' : World V N S) (j : ℕ) (t : Section V N) (c : ChunkBuffer V)
      (u : V)
      → IsReady engine w' (section_of w q) (chunk_of w q) j t c u
      → w'.total_buffers_loaded ≤ w'.max_buffers_loaded
      → w'.chunk_size_voxels ≡ w.chunk_size_voxels
      → w'.section_size_chunks ≡ w.section_size_chunks
      → (after : World V N S) × (get_voxel engine q later w'
          ≡ returned (engine.get_voxel_at u (place w q)) after)
  read_after q later w w' j t c u r few chunk_size section_size =
      let chunk : chunk_of w' q ≡ chunk_of w q = ap (container_vec q) chunk_size in
      let keys : section_of w' q ≡ section_of w q =
        ap (λ a. container_coord16 a w'.section_size_chunks) chunk
        ∙ ap (container_coord16 (chunk_of w q)) section_size in
      let (after, e) =
        get_voxel-IsReady engine q later w' j t c u
          (subst (λ k. IsReady engine w' k (chunk_of w' q) j t c u) (sym keys)
            (subst (λ a. IsReady engine w' (section_of w q) a j t c u) (sym chunk) r))
          few in
      (
        after,
        e
            ∙ ap
                (λ a.
                  returned (engine.get_voxel_at u (voxel_in_chunk q (container_vec q a) a)) after)
                chunk_size,
      )

  -- set_voxel() writes one voxel of the world. For two voxels p and q of sections that have their
  -- chunks, each chunk in memory or in its node, and with less buffers loaded than are allowed:
  -- set_voxel() at p returns, and reading q afterwards, whenever, gives what it gave before, unless q
  -- is p, which reads as the value written.
  pub set_voxel-get_voxel :
      (inside : V → Vec → Bool) (p q : Vec) (x now later : ℕ) (w : World V N S) (i j : ℕ)
      (s t : Section V N) (b c : ChunkBuffer V) (v u : V)
      → IsVolume engine inside
      → IsReadable engine inside w p i s b v
      → IsReadable engine inside w q j t c u
      → w.total_buffers_loaded < w.max_buffers_loaded
      → (y : ℕ) × (before written after : World V N S) × (get_voxel engine q later w
          ≡ returned y before)
        × (set_voxel engine p x now w ≡ returned tt written)
        × (get_voxel engine q later written ≡ returned (if vec_eq p q then x else y) after)
  unfolding IsKept
  set_voxel-get_voxel inside p q x now later w i j s t b c v u vol rp rq few =
      let (before, e0) = get_voxel-IsReady engine q later w j t c u rq.ready (omega arith) in
      let (written, g, h, e1, full, wr) =
        set_voxel-IsWritten engine p x now w i s b v rp.ready few in
      let v' = engine.set_voxel_at (place w p) x v in
      elim (Bool-cases (vec_eq (chunk_of w q) (chunk_of w p))) [
        | inl e ↦
            let same = (vec_eq_iff (chunk_of w q) (chunk_of w p)).0 e in
            let key : section_of w q ≡ section_of w p =
              ap (λ a. container_coord16 a w.section_size_chunks) same in
            let r =
              IsWritten-IsReady engine w written (section_of w p) (chunk_of w p) s i b g h v v'
                rp.ready wr full in
            let (after, e2) =
              read_after q later w written i (with_buffer (with_buffer s i g) i h) h v'
                (subst
                  (λ k.
                    IsReady engine written k (chunk_of w q) i (with_buffer (with_buffer s i g) i h)
                      h v')
                  (sym key)
                  (subst
                    (λ a.
                      IsReady engine written (section_of w p) a i
                        (with_buffer (with_buffer s i g) i h) h v')
                    (sym same) r))
                wr.few wr.chunk_size wr.section_size in
            (
              engine.get_voxel_at u (place w q),
              before,
              written,
              after,
              e0,
              e1,
              e2
                  ∙ ap (λ a. returned a after)
                      (same_chunk engine inside p q x w i j s t b c v u vol rp rq same),
            )
        | inr e ↦
            let apart : chunk_of w q ≢ chunk_of w p =
              λ f. absurd (ground (arith, e, (vec_eq_iff (chunk_of w q) (chunk_of w p)).1 f)) in
            let (j', t', c', r) =
              other_chunk engine inside p q w written i j s t b c g h v u rp rq wr apart in
            let (after, e2) =
              read_after q later w written j' t' c' u r wr.few wr.chunk_size wr.section_size in
            (
              engine.get_voxel_at u (place w q),
              before,
              written,
              after,
              e0,
              e1,
              e2
                  ∙ ap (λ a. returned (if a then x else engine.get_voxel_at u (place w q)) after)
                      (sym (differ e)),
            )
      ]
    where
      differ : vec_eq (chunk_of w q) (chunk_of w p) ≡ false → vec_eq p q ≡ false
      differ e = elim (Bool-cases (vec_eq p q)) [
        | inr f ↦ f
        | inl f ↦ absurd (
            ground (
              arith,
              e,
              (vec_eq_iff (chunk_of w q) (chunk_of w p)).1
                  (ap (λ a. container_vec a w.chunk_size_voxels) (sym ((vec_eq_iff p q).0 f))),
            ))
      ]
