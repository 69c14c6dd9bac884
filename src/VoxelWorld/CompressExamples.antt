-- ===== src/VoxelWorld/CompressExamples.antt =====
-- Compression with a simple stream format: a 1 before each byte, and a 0 at the end.
use buildat.Base.{
  ℕ, zero, suc, ◌+◌, ◌<◌, ◌≤◌, ◌≡◌, ◌≢◌, ◌⊎◌, inl, inr, refl, some, [], ◌∷◌, ◌++◌, if◌then◌else◌,
  ◌==◌, length, arith,
}
use buildat.Base.Keys.{Bytes}
use buildat.VoxelWorld.Volume.Compress.{
  Call, Streams, going, stream_end, written, compress_zlib, decompress_zlib, Deflates, last, more,
  IsStreams,
}
use buildat.VoxelWorld.Volume.Decompress.{decompress_zlib-compress_zlib}

abbrev deflate : Bytes → ℕ → Call ℕ
deflate [] z = record { status = stream_end; next_in = []; output = 0 ∷ []; stream = z }
deflate (b ∷ next_in) z = record {
  status = going;
  next_in = next_in;
  output = 1 ∷ b ∷ [];
  stream = z;
}

-- The stream is 0 before a mark, and 1 before a byte.
abbrev inflate : Bytes → ℕ → Call ℕ
inflate [] z = record { status = going; next_in = []; output = []; stream = z }
inflate (b ∷ next_in) zero = record {
  status = if b == 0 then stream_end else going;
  next_in = next_in;
  output = [];
  stream = 1;
}
inflate (b ∷ next_in) (suc z) = record {
  status = going;
  next_in = next_in;
  output = b ∷ [];
  stream = 0;
}

abbrev pub streams : Streams ℕ
streams = record {
  deflate_init = λ level. some 0;
  deflate = deflate;
  inflate_init = some 0;
  inflate = inflate;
}

abbrev encode : Bytes → Bytes
encode [] = 0 ∷ []
encode (b ∷ d) = 1 ∷ b ∷ encode d

abbrev pub Inflating : ℕ → Bytes → Bytes → Type 0
Inflating zero b d = b ≡ encode d
Inflating (suc z) b [] = ◌≡◌ {A = ℕ} 0 1
Inflating (suc z) b (x ∷ d) = b ≡ x ∷ encode d

abbrev pub calls : Bytes → ℕ → ℕ
calls b level = suc (length b)

abbrev pub longest : Bytes → ℕ
longest b = length b

encode_ne : (d : Bytes) → encode d ≢ []
encode_ne [] e = cc
encode_ne (b ∷ d) e = cc

length-encode : (d : Bytes) → length d ≤ length (encode d)
length-encode [] = omega arith
length-encode (b ∷ d) = omega (arith, length-encode d)

encode-Deflates : (d : Bytes) (z : ℕ) → Deflates streams (suc (length d)) d z (encode d)
encode-Deflates [] z = last 0 [] z refl
encode-Deflates (b ∷ d) z = more (suc (length d)) (b ∷ d) z (encode d) refl (encode-Deflates d z)

pub streams-IsStreams : IsStreams streams Inflating calls longest
streams-IsStreams = record {
  deflated = λ d level small.
      (0, 0, encode d, refl, encode-Deflates d 0, refl, refl, encode_ne d, length-encode d);
  inflated = inflated;
}
  where
    inflated :
        (z : ℕ) (b : ℕ) (piece rest d : Bytes)
        → Inflating z ((b ∷ piece) ++ rest) d
        → let c = streams.inflate (b ∷ piece) z in
          ((c.status ≡ stream_end) × (c.output ≡ d))
          ⊎ ((c.status ≡ going)
              × ((d' : Bytes) × (d ≡ c.output ++ d')
                  × Inflating c.stream (c.next_in ++ rest) d'
                  × (c.next_in ++ rest ≢ [])
                  × (length c.next_in + length d' < suc (length piece) + length d)))
    inflated zero b piece rest [] at = inl (ground arith, refl)
    inflated zero b piece rest (x ∷ d) at =
        inr (ground arith, (x ∷ d, refl, ground arith, λ e. absurd cc, omega arith))
    inflated (suc z) b piece rest [] at = absurd (omega arith)
    inflated (suc z) b piece rest (x ∷ d) at = inr (
      refl,
      (d, ground arith, ground arith, λ e. absurd (ground (arith, encode_ne d)), omega arith),
    )

decompress_zlib-compress_zlib_example :
    (c : Bytes) × (compress_zlib streams (calls (7 ∷ 0 ∷ 7 ∷ []) 6) (7 ∷ 0 ∷ 7 ∷ []) 6 ≡ written c)
    × ((fuel : ℕ)
        → length c + longest c < fuel
        → decompress_zlib streams fuel c ≡ written (7 ∷ 0 ∷ 7 ∷ []))
decompress_zlib-compress_zlib_example =
    decompress_zlib-compress_zlib streams Inflating calls longest streams-IsStreams (7 ∷ 0 ∷ 7 ∷ [])
      6 (omega arith)
