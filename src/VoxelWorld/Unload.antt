-- ===== src/VoxelWorld/Unload.antt =====
-- What unload_old_buffers() does to the buffers (builtin/voxelworld/voxelworld.cpp).
use buildat.Base.{
  ℕ, zero, suc, ◌+◌, ◌/◌, ◌≤◌, ◌<◌, ◌≡◌, refl, ◌∙◌, none, some, List, [], ◌∷◌, true, false, ltb,
  arith, lt→ltb, ltb→lt, Bool-cases, inl, inr,
}
use buildat.VoxelWorld.Coords.{Vec, vec_eq_instance}
use buildat.VoxelWorld.Section.{ChunkBuffer}
use buildat.VoxelWorld.World.{
  World, contains_vec, buffer_at, unload_section, unload_sections, unload_round, unload_old_buffers,
  maintain_maximum_buffer_limit,
}
use buildat.VoxelWorld.Sweep.{unloaded, IsGone, unload_sections-IsGone, unload_sections_old}

module _ {V N S : Type 0} where
  -- What a world has beside the sections and the counts.
  abbrev pub IsSame : World V N S → World V N S → Type 0
  IsSame w t = (t.scene ≡ w.scene) × (t.messages ≡ w.messages)

  unload_sections-IsSame :
      (now timeout : ℕ) (ps : List Vec) (w : World V N S)
      → IsSame w (unload_sections now timeout ps w)
  unfolding unload_sections unload_section
  unload_sections-IsSame now timeout [] w = (refl, refl)
  unload_sections-IsSame now timeout (p ∷ ps) w =
      let (a, b) = unload_sections-IsSame now timeout ps (unload_section now timeout p w) in
      (ground (arith, a), ground (arith, b))

  unload_round-IsGone :
      (now timeout : ℕ) (p : Vec) (i : ℕ) (b : ChunkBuffer V) (w : World V N S)
      → IsGone p i b w
      → IsGone p i b (unload_round now timeout w)
  unfolding unload_round IsGone buffer_at
  unload_round-IsGone now timeout p i b w h =
      unload_sections-IsGone now timeout p w.sections_with_loaded_buffers i b
        (record w {
          sections_with_loaded_buffers = [];
          total_buffers_loaded = 0;
          total_buffers_dirty = 0;
        })
        h

  unload_old_buffers_step :
      (P : World V N S → Type 0) (fuel now timeout max_buffers : ℕ) (w : World V N S)
      → P (unload_round now timeout w)
      → P (unload_old_buffers fuel now (timeout / 4) max_buffers (unload_round now timeout w))
      → P (unload_old_buffers (suc fuel) now timeout max_buffers w)
  unfolding unload_old_buffers
  unload_old_buffers_step P fuel now timeout max_buffers w once again =
      elim (ltb 1000 timeout)
        as (λ c. P (elim c [
          | false ↦ unload_round now timeout w
          | true ↦ elim (ltb max_buffers (unload_round now timeout w).total_buffers_loaded) [
            | false ↦ unload_round now timeout w
            | true ↦
                unload_old_buffers fuel now (timeout / 4) max_buffers (unload_round now timeout w)
          ]
        ])) [
          | false ↦ once
          | true ↦
              elim (ltb max_buffers (unload_round now timeout w).total_buffers_loaded)
                as (λ c. P (elim c [
                  | false ↦ unload_round now timeout w
                  | true ↦
                      unload_old_buffers fuel now (timeout / 4) max_buffers
                        (unload_round now timeout w)
                ])) [ false ↦ once | true ↦ again ]
        ]

  -- What each round keeps, the rounds together keep.
  unload_old_buffers_all :
      (P : World V N S → Type 0) (fuel now timeout max_buffers : ℕ) (w : World V N S)
      → ((t : ℕ) (u : World V N S) → P u → P (unload_round now t u))
      → P w
      → P (unload_old_buffers fuel now timeout max_buffers w)
  unfolding unload_old_buffers
  unload_old_buffers_all P zero now timeout max_buffers w keep h = h
  unload_old_buffers_all P (suc fuel) now timeout max_buffers w keep h =
      unload_old_buffers_step P fuel now timeout max_buffers w (keep timeout w h) (
        unload_old_buffers_all P fuel now (timeout / 4) max_buffers (unload_round now timeout w)
          keep (keep timeout w h))

  unload_round-IsSame :
      (w : World V N S) (now timeout : ℕ) (u : World V N S)
      → IsSame w u
      → IsSame w (unload_round now timeout u)
  unfolding unload_round
  unload_round-IsSame w now timeout u (a, b) =
      let (c, d) = unload_sections-IsSame now timeout u.sections_with_loaded_buffers (record u {
        sections_with_loaded_buffers = [];
        total_buffers_loaded = 0;
        total_buffers_dirty = 0;
      }) in
      (c ∙ a, d ∙ b)

  maintain_over :
      (P : World V N S → Type 0) (now : ℕ) (w : World V N S)
      → w.max_buffers_loaded < w.total_buffers_loaded
      → ((t : ℕ) (u : World V N S) → P u → P (unload_round now t u))
      → P (unload_round now w.buffer_unload_timeout w)
      → P (maintain_maximum_buffer_limit now w)
  unfolding maintain_maximum_buffer_limit
  maintain_over P now w many keep once =
      rw (lt→ltb w.max_buffers_loaded w.total_buffers_loaded many) (
        unload_old_buffers_step P w.buffer_unload_timeout now w.buffer_unload_timeout
          w.max_buffers_loaded w once
          (unload_old_buffers_all P w.buffer_unload_timeout now (w.buffer_unload_timeout / 4)
            w.max_buffers_loaded (unload_round now w.buffer_unload_timeout w) keep once))

  unload_round_old :
      (now timeout : ℕ) (p : Vec) (i : ℕ) (b : ChunkBuffer V) (v : V) (w : World V N S)
      → contains_vec p w.sections_with_loaded_buffers ≡ true
      → buffer_at p i w ≡ some b
      → b.volume ≡ some v
      → b.last_accessed_us + timeout ≤ now
      → IsGone p i (unloaded b) (unload_round now timeout w)
  unfolding unload_round buffer_at
  unload_round_old now timeout p i b v w there at full old =
      unload_sections_old now timeout p w.sections_with_loaded_buffers i b v
        (record w {
          sections_with_loaded_buffers = [];
          total_buffers_loaded = 0;
          total_buffers_dirty = 0;
        })
        there at full old

  -- When more buffers are loaded than are allowed, maintain_maximum_buffer_limit() unloads each
  -- buffer of the listed sections that was not used for the timeout, whether or not it is dirty, and
  -- clears its dirty flag; the scene stays as it is and nothing is sent: what was written to the
  -- buffer since the last commit is lost.
  pub maintain_maximum_buffer_limit-unloaded :
      (now : ℕ) (section_p : Vec) (i : ℕ) (b : ChunkBuffer V) (v : V) (w : World V N S)
      → w.max_buffers_loaded < w.total_buffers_loaded
      → contains_vec section_p w.sections_with_loaded_buffers ≡ true
      → buffer_at section_p i w ≡ some b
      → b.volume ≡ some v
      → b.last_accessed_us + w.buffer_unload_timeout ≤ now
      → (buffer_at section_p i (maintain_maximum_buffer_limit now w)
          ≡ some (record b { volume = none; dirty = false }))
        × ((maintain_maximum_buffer_limit now w).scene ≡ w.scene)
        × ((maintain_maximum_buffer_limit now w).messages ≡ w.messages)
  unfolding IsGone
  maintain_maximum_buffer_limit-unloaded now p i b v w many there at full old =
      let (gone, _) =
        maintain_over (IsGone p i (unloaded b)) now w many
          (λ t u. unload_round-IsGone now t p i (unloaded b) u)
          (unload_round_old now w.buffer_unload_timeout p i b v w there at full old) in
      let (same_scene, same_messages) =
        maintain_over (IsSame w) now w many (unload_round-IsSame w now)
          (unload_round-IsSame w now w.buffer_unload_timeout w (refl, refl)) in
      (gone, same_scene, same_messages)

  -- More fuel than the timeout changes nothing.
  unload_old_buffers_fuel :
      (f g now timeout max_buffers : ℕ) (w : World V N S)
      → timeout < f
      → timeout < g
      → unload_old_buffers f now timeout max_buffers w
        ≡ unload_old_buffers g now timeout max_buffers w
  unfolding unload_old_buffers
  unload_old_buffers_fuel zero g now timeout max_buffers w hf hg = absurd (omega arith)
  unload_old_buffers_fuel (suc f) zero now timeout max_buffers w hf hg = absurd (omega arith)
  unload_old_buffers_fuel (suc f) (suc g) now timeout max_buffers w hf hg =
      elim (Bool-cases (ltb 1000 timeout)) [
        | inr e ↦ ground (arith, e)
        | inl e ↦ ground (
          arith,
          e,
          unload_old_buffers_fuel f g now (timeout / 4) max_buffers (unload_round now timeout w)
              (shorter f e hf) (shorter g e hg),
        )
      ]
    where
      shorter : (n : ℕ) → ltb 1000 timeout ≡ true → timeout < suc n → timeout / 4 < n
      shorter n e h = omega (arith, ltb→lt 1000 timeout e)
