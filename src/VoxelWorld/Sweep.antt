-- ===== src/VoxelWorld/Sweep.antt =====
-- What one round over the sections does to a buffer (unload_old_buffers() of
-- builtin/voxelworld/voxelworld.cpp).
use buildat.Base.{
  ℕ, zero, suc, ◌+◌, ◌≤◌, ◌≡◌, ◌≢◌, refl, sym, ap, ◌∙◌, none, some, List, [], ◌∷◌, true, false,
  arith, get_elem?, Option-cases, Bool-cases, inl, inr,
}
use mathlib.Core.Path.{subst}
use buildat.Base.Map.{lookup, lookup-insert_self, lookup-insert_ne}
use buildat.VoxelWorld.Coords.{Vec, vec_eq, vec_eq_iff, vec_eq_instance}
use buildat.VoxelWorld.Section.{ChunkBuffer, Section, unload_if_old}
use buildat.VoxelWorld.World.{
  World, contains_vec, buffer_at, unload_buffers, unload_section, unload_sections,
}

module _ {V : Type 0} where
  -- What a round leaves of a buffer.
  abbrev pub after : ℕ → ℕ → ChunkBuffer V → ChunkBuffer V
  after now timeout b = elim (unload_if_old now timeout b) [ none ↦ b | some u ↦ u ]

  abbrev pub unloaded : ChunkBuffer V → ChunkBuffer V
  unloaded b = record b { volume = none; dirty = false }

  after_gone : (now timeout : ℕ) (b : ChunkBuffer V) → b.volume ≡ none → after now timeout b ≡ b
  unfolding unload_if_old
  after_gone now timeout b h = ground (arith, h)

  pub after_old :
      (now timeout : ℕ) (b : ChunkBuffer V) (v : V)
      → b.volume ≡ some v
      → b.last_accessed_us + timeout ≤ now
      → after now timeout b ≡ unloaded b
  unfolding unload_if_old
  after_old now timeout b v h old = ground (arith, h)

  pub get_elem?-unload_buffers :
      (now timeout : ℕ) (bs : List (ChunkBuffer V)) (i : ℕ) (b : ChunkBuffer V)
      → get_elem? bs i ≡ some b
      → get_elem? (unload_buffers now timeout bs).buffers i ≡ some (after now timeout b)
  unfolding unload_buffers
  get_elem?-unload_buffers now timeout [] i b h = absurd cc
  get_elem?-unload_buffers now timeout (x ∷ bs) zero b h = ground arith
  get_elem?-unload_buffers now timeout (x ∷ bs) (suc i) b h =
      ground (arith, get_elem?-unload_buffers now timeout bs i b h)

module _ {V N S : Type 0} where
  pub buffer_at_there :
      (p : Vec) (i : ℕ) (b : ChunkBuffer V) (w : World V N S)
      → buffer_at p i w ≡ some b
      → (s : Section V N) × (lookup p w.sections ≡ some s) × (get_elem? s.chunk_buffers i ≡ some b)
  unfolding buffer_at
  buffer_at_there p i b w h = elim (Option-cases (lookup p w.sections)) [
    | inl e ↦ absurd (ground (arith, e, h))
    | inr (s, e) ↦ (s, e, ground (arith, e, h))
  ]

  pub unload_section_self :
      (now timeout : ℕ) (p : Vec) (i : ℕ) (b : ChunkBuffer V) (w : World V N S)
      → buffer_at p i w ≡ some b
      → buffer_at p i (unload_section now timeout p w) ≡ some (after now timeout b)
  unfolding buffer_at unload_section
  unload_section_self now timeout p i b w h =
      let (s, there, at) = buffer_at_there p i b w h in
      ground (
        arith,
        there,
        get_elem?-unload_buffers now timeout s.chunk_buffers i b at,
        lookup-insert_self p
            (record s { chunk_buffers = (unload_buffers now timeout s.chunk_buffers).buffers })
            w.sections,
      )

  unload_section_ne :
      (now timeout : ℕ) (p q : Vec) (i : ℕ) (w : World V N S)
      → q ≢ p
      → buffer_at p i (unload_section now timeout q w) ≡ buffer_at p i w
  unfolding buffer_at unload_section
  unload_section_ne now timeout p q i w ne = elim (Option-cases (lookup q w.sections)) [
    | inl e ↦ ground (arith, e)
    | inr (s, e) ↦ ground (
      arith,
      e,
      lookup-insert_ne q p
          (record s { chunk_buffers = (unload_buffers now timeout s.chunk_buffers).buffers })
          w.sections ne,
    )
  ]

  -- A buffer that is not loaded stays as it is.
  unfoldable pub IsGone : Vec → ℕ → ChunkBuffer V → World V N S → Type 0
  IsGone p i b w = (buffer_at p i w ≡ some b) × (b.volume ≡ none)

  unload_section-IsGone :
      (now timeout : ℕ) (p q : Vec) (i : ℕ) (b : ChunkBuffer V) (w : World V N S)
      → IsGone p i b w
      → IsGone p i b (unload_section now timeout q w)
  unfolding IsGone
  unload_section-IsGone now timeout p q i b w (at, gone) = elim (Bool-cases (vec_eq q p)) [
    | inl e ↦ (
      subst (λ r. buffer_at p i (unload_section now timeout r w) ≡ some b)
          (sym ((vec_eq_iff q p).0 e))
          (unload_section_self now timeout p i b w at ∙ ap some (after_gone now timeout b gone)),
      gone,
    )
    | inr e ↦ (
      unload_section_ne now timeout p q i w (λ f. absurd (ground (arith, (vec_eq_iff q p).1 f)))
          ∙ at,
      gone,
    )
  ]

  pub unload_sections-IsGone :
      (now timeout : ℕ) (p : Vec) (ps : List Vec) (i : ℕ) (b : ChunkBuffer V) (w : World V N S)
      → IsGone p i b w
      → IsGone p i b (unload_sections now timeout ps w)
  unfolding unload_sections
  unload_sections-IsGone now timeout p [] i b w h = h
  unload_sections-IsGone now timeout p (q ∷ ps) i b w h =
      unload_sections-IsGone now timeout p ps i b _ (unload_section-IsGone now timeout p q i b w h)

  -- An old buffer of a section that is in the list is unloaded.
  pub unload_sections_old :
      (now timeout : ℕ) (p : Vec) (ps : List Vec) (i : ℕ) (b : ChunkBuffer V) (v : V)
      (w : World V N S)
      → contains_vec p ps ≡ true
      → buffer_at p i w ≡ some b
      → b.volume ≡ some v
      → b.last_accessed_us + timeout ≤ now
      → IsGone p i (unloaded b) (unload_sections now timeout ps w)
  unfolding unload_sections IsGone
  unload_sections_old now timeout p [] i b v w there at full old = absurd cc
  unload_sections_old now timeout p (q ∷ ps) i b v w there at full old =
      elim (Bool-cases (vec_eq q p)) [
        | inl e ↦ unload_sections-IsGone now timeout p ps i (unloaded b) _ (
          subst (λ r. buffer_at p i (unload_section now timeout r w) ≡ some (unloaded b))
              (sym ((vec_eq_iff q p).0 e))
              (unload_section_self now timeout p i b w at
                ∙ ap some (after_old now timeout b v full old)),
          refl,
        )
        | inr e ↦
            unload_sections_old now timeout p ps i b v (unload_section now timeout q w)
              (ground (arith, there, e))
              (unload_section_ne now timeout p q i w
                  (λ f. absurd (ground (arith, e, (vec_eq_iff q p).1 f)))
                ∙ at)
              full old
      ]
