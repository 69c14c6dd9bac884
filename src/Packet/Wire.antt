-- ===== src/Packet/Wire.antt =====
-- Bytes on the wire: what output() writes and input() reads of numbers.
use buildat.Base.{ℕ, ◌+◌, ◌-◌, ◌*◌, ◌/◌, ◌%◌, ◌^◌, List, [], ◌∷◌, ltb, if◌then◌else◌, length}
use buildat.Base.Keys.{Bytes}
use buildat.Packet.Registry.{size_mod}

-- `(char)((n >> 8 * i) & 0xff)`
abbrev pub byte : ℕ → ℕ → ℕ
byte n i = n / 256 ^ i % 256

-- The header that output() writes before the data, and the data.
unfoldable pub frame : ℕ → Bytes → Bytes
frame type payload =
    let n = length payload in
    byte type 0 ∷ byte type 1 ∷ byte n 0 ∷ byte n 1 ∷ byte n 2 ∷ byte n 3 ∷ payload

-- `(b0 & 0xff)<<0 | (b1 & 0xff)<<8`: the bits do not overlap.
unfoldable pub read_type : ℕ → ℕ → ℕ
read_type b0 b1 = b0 % 256 + b1 % 256 * 256

-- The four masked bytes make an `int`, which is converted to size_t: from 2^31 on the sign is
-- extended over the upper half.
unfoldable pub read_size : ℕ → ℕ → ℕ → ℕ → ℕ
read_size b0 b1 b2 b3 =
    let n = b0 % 256 + b1 % 256 * 256 + b2 % 256 * 65536 + b3 % 256 * 16777216 in
    if ltb n 2147483648 then n else n + (size_mod - 4294967296)

-- `d0<<0 | d1<<8 | …` of values of the signed type `char`, converted to size_t. A byte from 128 on
-- is negative, so all the bits above it are ones and those of the later bytes do not show.
unfoldable pub chars_or : List ℕ → ℕ
chars_or [] = 0
chars_or (d ∷ ds) = if ltb d 128 then d + 256 * chars_or ds % size_mod else d + (size_mod - 256)
