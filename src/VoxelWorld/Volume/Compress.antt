-- ===== src/VoxelWorld/Volume/Compress.antt =====
-- compress_zlib() and decompress_zlib() (src/impl/compress.cpp) over the calls of zlib.
use buildat.Base.{
  ℕ, zero, suc, ◌+◌, ◌<◌, ◌≤◌, ◌≡◌, ◌≢◌, ◌⊎◌, refl, Option, none, some, [], ◌∷◌, ◌++◌, length, take,
  drop,
}
use buildat.Base.Keys.{Bytes}

-- Z_NEED_DICT, Z_DATA_ERROR and Z_MEM_ERROR are failures; the loops go on after anything else.
pub data Status : Type 0 where
  going : Status
  stream_end : Status
  failure : Status

-- What a call of deflate() or inflate() leaves: next_in with avail_in, what it wrote to the output
-- buffer, and the state of the stream.
pub record Call (Z : Type 0) : Type 0 where
  pub status : Status
  pub next_in : Bytes
  pub output : Bytes
  pub stream : Z

-- zlib, with a new output buffer for each call; deflate() is called with Z_FINISH. `none` is a
-- result other than Z_OK.
pub record Streams (Z : Type 0) : Type 0 where
  pub deflate_init : ℕ → Option Z
  pub deflate : Bytes → Z → Call Z
  pub inflate_init : Option Z
  pub inflate : Bytes → Z → Call Z

-- The output, an exception, or not enough fuel.
pub data Outcome : Type 0 where
  written : Bytes → Outcome
  thrown : Outcome
  out_of_fuel : Outcome

unfoldable pub write : Bytes → Outcome → Outcome
write b (written c) = written (b ++ c)
write b thrown = thrown
write b out_of_fuel = out_of_fuel

-- readsome() when the input buffer is used up: at most 16384 bytes of what is left.
unfoldable pub refill : Bytes → Bytes → Bytes × Bytes
refill [] is = (take 16384 is, drop 16384 is)
refill (b ∷ next_in) is = (b ∷ next_in, is)

module _ {Z : Type 0} (zs : Streams Z) where
  unfoldable pub after_call : Call Z → Outcome → Outcome
  after_call c rest = elim c.status [
    | failure ↦ thrown
    | stream_end ↦ written c.output
    | going ↦ write c.output rest
  ]

  unfoldable pub compress_loop : ℕ → Bytes → Z → Outcome
  compress_loop zero next_in z = out_of_fuel
  compress_loop (suc fuel) next_in z =
      let c = zs.deflate next_in z in after_call c (compress_loop fuel c.next_in c.stream)

  unfoldable pub compress_zlib : ℕ → Bytes → ℕ → Outcome
  compress_zlib fuel data_in level = elim (zs.deflate_init level) [
    | none ↦ thrown
    | some z ↦ compress_loop fuel data_in z
  ]

  -- With nothing left to read, the loop ends. What is ungot at the end of the stream is not read
  -- again.
  unfoldable pub inflate_buffer : Bytes → Z → (Call Z → Outcome) → Outcome
  inflate_buffer [] z rest = written []
  inflate_buffer (b ∷ next_in) z rest = let c = zs.inflate (b ∷ next_in) z in after_call c (rest c)

  unfoldable pub decompress_loop : ℕ → Bytes → Bytes → Z → Outcome
  decompress_loop zero next_in is z = out_of_fuel
  decompress_loop (suc fuel) next_in is z =
      let (next_in', is') = refill next_in is in
      inflate_buffer next_in' z (λ c. decompress_loop fuel c.next_in is' c.stream)

  unfoldable pub decompress_zlib : ℕ → Bytes → Outcome
  decompress_zlib fuel is = elim zs.inflate_init [
    | none ↦ thrown
    | some z ↦ decompress_loop fuel [] is z
  ]

  -- At most so many calls of deflate() give this output.
  pub data Deflates : ℕ → Bytes → Z → Bytes → Type 0 where
    last :
        (n : ℕ) (next_in : Bytes) (z : Z)
        → (zs.deflate next_in z).status ≡ stream_end
        → Deflates (suc n) next_in z (zs.deflate next_in z).output
    more :
        (n : ℕ) (next_in : Bytes) (z : Z) (c : Bytes)
        → (zs.deflate next_in z).status ≡ going
        → Deflates n (zs.deflate next_in z).next_in (zs.deflate next_in z).stream c
        → Deflates (suc n) next_in z ((zs.deflate next_in z).output ++ c)

  -- zlib's promises. deflate() with Z_FINISH reports the end of the stream after boundedly many
  -- calls. `Inflating z b d`: the stream is at a place where `b` is left of it, which gives `d`.
  -- However `b` is cut, inflate() of a first piece makes progress and leads to such a place, or to
  -- the end of the stream; before the end some of the stream, its check value at least, is unread.
  -- A string inflates to `longest` bytes at most.
  pub record IsStreams (Inflating : Z → Bytes → Bytes → Type 0) (calls : Bytes → ℕ → ℕ)
      (longest : Bytes → ℕ) : Type 0 where
    pub deflated :
        (data_in : Bytes) (level : ℕ)
        → level < 10
        → (z z' : Z) × (c : Bytes) × (zs.deflate_init level ≡ some z)
          × Deflates (calls data_in level) data_in z c
          × (zs.inflate_init ≡ some z')
          × Inflating z' c data_in
          × (c ≢ [])
          × (length data_in ≤ longest c)
    pub inflated :
        (z : Z) (b : ℕ) (piece rest d : Bytes)
        → Inflating z ((b ∷ piece) ++ rest) d
        → let c = zs.inflate (b ∷ piece) z in
          ((c.status ≡ stream_end) × (c.output ≡ d))
          ⊎ ((c.status ≡ going)
              × ((d' : Bytes) × (d ≡ c.output ++ d')
                  × Inflating c.stream (c.next_in ++ rest) d'
                  × (c.next_in ++ rest ≢ [])
                  × (length c.next_in + length d' < suc (length piece) + length d)))

  pub compress_loop-Deflates :
      (n : ℕ) (next_in : Bytes) (z : Z) (c : Bytes)
      → Deflates n next_in z c
      → compress_loop n next_in z ≡ written c
  unfolding compress_loop after_call write
  compress_loop-Deflates _ _ _ _ (last n next_in z e) = rw e refl
  compress_loop-Deflates _ _ _ _ (more n next_in z c e rest) =
      rw
        (
          e,
          compress_loop-Deflates n (zs.deflate next_in z).next_in (zs.deflate next_in z).stream c
              rest,
        )
        refl
