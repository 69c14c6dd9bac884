-- ===== src/Packet/HighTypes.antt =====
-- Types whose low byte is 128 or more: the receiver reads the definition with signed characters.

use buildat.Base.{
  ℕ, ◌+◌, ◌-◌, ◌%◌, ◌≤◌, ◌<◌, ◌≡◌, refl, ◌∙◌, none, some, [], ◌∷◌, ◌++◌, arith, length, flatten,
  take-length,
}
use buildat.Base.Keys.{Bytes, nat_eq, bytes_eq_instance}
use buildat.Base.Map.{lookup, lookup-insert_ne}
use buildat.Packet.Registry.{
  size_mod, define_packet_type, PacketStream, Incoming, incoming_set, incoming_get_name,
  unknown_packet,
}
use buildat.Packet.Wire.{byte, frame, chars_or}
use buildat.Packet.Output.{definition, output}
use buildat.Packet.Input.{go, define_type, handle_packet, input}
use buildat.Packet.Frames.{round-frame, chars_or-byte_size}
use buildat.Packet.Chunks.{halted, input_rounds-halt}
use buildat.Packet.Sender.{IsSender, output_new}
use buildat.Packet.RoundTrip.{IsSynced, input-go, length-definition}

-- What the receiver takes the type for.
abbrev pub misread : ℕ → ℕ
misread t = t % 256 + (size_mod - 256)

chars_or_high : (t : ℕ) → 128 ≤ t % 256 → chars_or (byte t 0 ∷ byte t 1 ∷ []) ≡ misread t
unfolding chars_or
chars_or_high t h = ground arith

define_type_high :
    (i : Incoming) (t : ℕ) (name rest : Bytes)
    → 128 ≤ t % 256
    → length name < 128
    → define_type i (definition t name) rest ≡ go (incoming_set (misread t) name i) rest []
unfolding define_type definition
define_type_high i t name rest h hn =
    rw (chars_or_high t h, chars_or-byte_size (length name) hn, take-length name) (ground arith)

input_high_definition :
    (i : Incoming) (t : ℕ) (name rest : Bytes)
    → lookup 0 i.names ≡ some define_packet_type
    → 128 ≤ t % 256
    → length name < 128
    → input i (frame 0 (definition t name) ++ rest) ≡ input (incoming_set (misread t) name i) rest
unfolding handle_packet incoming_get_name
input_high_definition i t name rest e h hn =
    input-go i (incoming_set (misread t) name i) (frame 0 (definition t name) ++ rest) rest [] (
      round-frame i 0 (definition t name) rest (omega arith)
        (omega (arith, length-definition t name))
      ∙ rw (e, handle_packet, incoming_get_name) (define_type_high i t name rest h hn))

input_unknown_frame :
    (i : Incoming) (t : ℕ) (payload : Bytes)
    → lookup t i.names ≡ none
    → t < 65536
    → length payload < 2147483648
    → input i (frame t payload ++ []) ≡ halted unknown_packet i []
unfolding input handle_packet incoming_get_name
input_unknown_frame i t payload e ht hn =
    input_rounds-halt (length (frame t payload ++ [])) i (frame t payload ++ []) [] unknown_packet
      (round-frame i t payload [] ht hn ∙ rw (e, handle_packet, incoming_get_name))

-- The 29th name of a stream is lost. Its type is 128. For two sides that agree on the types, and
-- a new name of fewer than 128 bytes with data of fewer than 2^31, nothing of what output() sends is
-- delivered: input() ends with the exception of an unknown packet.
pub output_29th_name :
    (i : Incoming) (s : PacketStream) (name payload : Bytes)
    → IsSender s
    → IsSynced s i
    → s.outgoing.next_type ≡ 128
    → lookup name s.outgoing.types ≡ none
    → lookup 128 i.names ≡ none
    → length name < 128
    → length payload < 2147483648
    → (input i (flatten (output 2 name payload s).sent)).delivered ≡ []
      × (input i (flatten (output 2 name payload s).sent)).stop ≡ unknown_packet
unfolding incoming_set
output_29th_name i s name payload v y full e unknown hn hp =
    let define = y.known 0 define_packet_type (v.typed define_packet_type 0 v.definer).0 in
    let i' = incoming_set (misread 128) name i in
    let still : lookup 128 i'.names ≡ none =
      lookup-insert_ne (misread 128) 128 name i.names (λ x. omega arith) ∙ unknown in
    rw
      (
        output_new name payload s v e (omega (arith, full)),
        full,
        input_high_definition i 128 name (frame 128 payload ++ []) define (omega arith) hn,
        input_unknown_frame i' 128 payload still (omega arith) hp,
      )
      (refl, refl)
