-- ===== src/VoxelWorld/Volume/Decompress.antt =====
-- What compress_zlib() wrote is read by decompress_zlib() (src/impl/compress.cpp).
use mathlib.Core.Path.{subst}
use buildat.Base.{
  ℕ, zero, suc, ◌+◌, ◌<◌, ◌≡◌, ◌≢◌, inl, inr, refl, sym, ap, ◌∙◌, Option, none, some, [], ◌∷◌, ◌++◌,
  length, length-append, take, drop, arith,
}
use buildat.Base.Keys.{Bytes}
use buildat.VoxelWorld.Volume.{Zlib}
use buildat.VoxelWorld.Volume.Laws.{IsZlib}
use buildat.VoxelWorld.Volume.Compress.{
  Streams, Outcome, written, thrown, out_of_fuel, write, refill, after_call, inflate_buffer,
  compress_loop, compress_zlib, decompress_loop, decompress_zlib, IsStreams, compress_loop-Deflates,
}

take-++-drop : (n : ℕ) (b : Bytes) → take n b ++ drop n b ≡ b
take-++-drop zero b = refl
take-++-drop (suc n) [] = refl
take-++-drop (suc n) (x ∷ b) = ap (◌∷◌ x) (take-++-drop n b)

-- There is something to read, and nothing is lost.
refill_parts :
    (next_in is : Bytes)
    → next_in ++ is ≢ []
    → (b : ℕ) × (piece rest : Bytes) × (refill next_in is ≡ (b ∷ piece, rest))
      × (b ∷ piece ++ rest ≡ next_in ++ is)
unfolding refill
refill_parts [] [] h = absurd (h refl)
refill_parts [] (b ∷ is) h =
    (b, take 16383 is, drop 16383 is, refl, ap (◌∷◌ b) (take-++-drop 16383 is))
refill_parts (b ∷ next_in) is h = (b, next_in, is, refl, refl)

-- The answer of the loops: what they wrote, and no answer for an exception.
abbrev answer : Outcome → Option Bytes
answer (written b) = some b
answer thrown = none
answer out_of_fuel = none

-- Both functions as the volumes use them, with as much fuel as the bounds on zlib's calls and on
-- what a string inflates to ask for.
abbrev pub zlib_of : {Z : Type 0} → Streams Z → (Bytes → ℕ → ℕ) → (Bytes → ℕ) → Zlib
zlib_of zs calls longest = record {
  compress_zlib = λ b level. answer (compress_zlib zs (calls b level) b level);
  decompress_zlib = λ c. answer (decompress_zlib zs (suc (length c + longest c)) c);
}

module _ {Z : Type 0} (zs : Streams Z) (Inflating : Z → Bytes → Bytes → Type 0)
    (calls : Bytes → ℕ → ℕ) (longest : Bytes → ℕ)
    (laws : IsStreams zs Inflating calls longest) where
  decompress_loop-Inflating :
      (fuel : ℕ) (next_in is : Bytes) (z : Z) (d : Bytes)
      → Inflating z (next_in ++ is) d
      → next_in ++ is ≢ []
      → length next_in + length is + length d < fuel
      → decompress_loop zs fuel next_in is z ≡ written d
  unfolding decompress_loop inflate_buffer after_call write
  decompress_loop-Inflating zero next_in is z d at some_left enough = absurd (omega arith)
  decompress_loop-Inflating (suc fuel) next_in is z d at some_left enough =
      let (b, piece, rest, filled, whole) = refill_parts next_in is some_left in
      let many : suc (length piece) + length rest ≡ length next_in + length is =
        sym (length-append (b ∷ piece) rest) ∙ ap length whole ∙ length-append next_in is in
      let c = zs.inflate (b ∷ piece) z in
      rw filled
        (elim (laws.inflated z b piece rest d (subst (λ l. Inflating z l d) (sym whole) at)) [
          | inl (ends, all) ↦ rw ends (ap written all)
          | inr (goes, (d', parts, next, left, fewer)) ↦
              rw
                (
                  goes,
                  decompress_loop-Inflating fuel c.next_in rest c.stream d' next left
                      (omega (arith, many, fewer, enough)),
                )
                (ap written (sym parts))
        ])

  -- compress_zlib() of any string at a level below 10 returns, and with enough fuel
  -- decompress_zlib() returns that string from what it wrote.
  pub decompress_zlib-compress_zlib :
      (data_in : Bytes) (level : ℕ)
      → level < 10
      → (c : Bytes) × (compress_zlib zs (calls data_in level) data_in level ≡ written c)
        × ((fuel : ℕ) → length c + longest c < fuel → decompress_zlib zs fuel c ≡ written data_in)
  unfolding compress_zlib decompress_zlib
  decompress_zlib-compress_zlib data_in level small =
      let (z, z', c, begun, all, ready, at, some_left, long) = laws.deflated data_in level small in
      (
        c,
        ap
              (λ o. elim o [
                | none ↦ thrown
                | some s ↦ compress_loop zs (calls data_in level) data_in s
              ])
              begun
            ∙ compress_loop-Deflates zs (calls data_in level) data_in z c all,
        λ fuel enough.
            ap (λ o. elim o [ none ↦ thrown | some s ↦ decompress_loop zs fuel [] c s ]) ready
            ∙ decompress_loop-Inflating fuel [] c z' data_in at some_left
                (omega (arith, long, enough)),
      )

  pub zlib_of-IsZlib : IsZlib (zlib_of zs calls longest)
  zlib_of-IsZlib = record {
    compress = λ b level small.
        (let (c, wrote, reads) = decompress_zlib-compress_zlib b level small in
          (c, ap answer wrote, ap answer (reads (suc (length c + longest c)) (omega arith))));
  }
