-- ===== src/Packet/Frames.antt =====
-- What a round of input() does with a frame that output() wrote.
use buildat.Base.{
  ℕ, ◌<◌, ◌≡◌, [], ◌∷◌, ◌++◌, arith, length, length-append, take-append_self, take-length,
  drop-append_self,
}
use buildat.Base.Keys.{Bytes}
use buildat.Packet.Registry.{Incoming, incoming_set}
use buildat.Packet.Wire.{byte, frame, read_type, read_size, chars_or}
use buildat.Packet.Output.{definition}
use buildat.Packet.Input.{go, define_type, handle_packet, round}

pub read_type-byte : (t : ℕ) → t < 65536 → read_type (byte t 0) (byte t 1) ≡ t
unfolding read_type
read_type-byte t h = omega arith

pub read_size-byte :
    (n : ℕ) → n < 2147483648 → read_size (byte n 0) (byte n 1) (byte n 2) (byte n 3) ≡ n
unfolding read_size
read_size-byte n h = ground arith

pub chars_or-byte : (t : ℕ) → t < 128 → chars_or (byte t 0 ∷ byte t 1 ∷ []) ≡ t
unfolding chars_or
chars_or-byte t h = ground arith

pub chars_or-byte_size :
    (n : ℕ) → n < 128 → chars_or (byte n 0 ∷ byte n 1 ∷ byte n 2 ∷ byte n 3 ∷ []) ≡ n
unfolding chars_or
chars_or-byte_size n h = ground arith

-- A whole frame at the front of the buffer is one packet.
pub round-frame :
    (i : Incoming) (type : ℕ) (payload rest : Bytes)
    → type < 65536
    → length payload < 2147483648
    → round i (frame type payload ++ rest) ≡ handle_packet i type payload rest
unfolding round frame
round-frame i type payload rest ht hn = ground (
  arith,
  read_type-byte type ht,
  read_size-byte (length payload) hn,
  length-append payload rest,
  take-append_self payload rest,
  drop-append_self payload rest,
)

-- A definition of a type below 128 with a name below 128 bytes is entered as it was sent.
pub define_type-definition :
    (i : Incoming) (t1 : ℕ) (name rest : Bytes)
    → t1 < 128
    → length name < 128
    → define_type i (definition t1 name) rest ≡ go (incoming_set t1 name i) rest []
unfolding define_type definition
define_type-definition i t1 name rest ht hn =
    rw (chars_or-byte t1 ht, chars_or-byte_size (length name) hn, take-length name) (ground arith)
