-- ===== src/Packet/Input.antt =====
-- PacketStream::input (src/impl/packet_stream.cpp). What the callback is given is a list.
use buildat.Base.{
  ℕ, zero, suc, ◌+◌, ◌%◌, none, some, List, [], ◌∷◌, ◌++◌, ltb, if◌then◌else◌, length, take, drop,
  get_or,
}
use buildat.Base.Keys.{Bytes, bytes_eq}
use buildat.Packet.Registry.{
  size_mod, define_packet_type, Incoming, Stop, returned, unknown_packet, fault, out_of_fuel,
  incoming_get_name, incoming_set,
}
use buildat.Packet.Wire.{read_type, read_size, chars_or}

-- One round of the loop: it leaves input() with the buffer that is left, or goes on with the
-- registry and the buffer, having called back with the packets listed (at most one).
pub data Round : Type 0 where
  halt : Stop → Bytes → Round
  go : Incoming → Bytes → List (Bytes × Bytes) → Round

-- A packet of the type "core:define_packet_type". `data[i]` may be read up to the terminator at
-- `data.size()`.
unfoldable pub define_type : Incoming → Bytes → Bytes → Round
define_type i payload buffer =
    let type1 = chars_or (get_or payload 0 0 ∷ get_or payload 1 0 ∷ []) in
    let name1_size =
      chars_or
        (get_or payload 2 0 ∷ get_or payload 3 0 ∷ get_or payload 4 0 ∷ get_or payload 5 0 ∷ []) in
    if ltb (length payload) 5
    then halt fault buffer
    else if ltb (length payload) ((6 + name1_size) % size_mod)
    then go i buffer []
    else if ltb (length payload) (6 + name1_size)
    then halt fault buffer
    else go (incoming_set type1 (take name1_size (drop 6 payload)) i) buffer []

-- A whole packet has been taken off the buffer.
unfoldable pub handle_packet : Incoming → ℕ → Bytes → Bytes → Round
handle_packet i type payload buffer = elim (incoming_get_name type i) [
  | none ↦ halt unknown_packet buffer
  | some name ↦
      if bytes_eq name define_packet_type
      then define_type i payload buffer
      else go i buffer ((name, payload) ∷ [])
]

unfoldable pub round : Incoming → Bytes → Round
round i buffer =
    let type = read_type (get_or buffer 0 0) (get_or buffer 1 0) in
    let size =
      read_size (get_or buffer 2 0) (get_or buffer 3 0) (get_or buffer 4 0) (get_or buffer 5 0) in
    if ltb (length buffer) 6
    then halt returned buffer
    else if ltb (length buffer) ((6 + size) % size_mod)
    then halt returned buffer
    else if ltb ((6 + size) % size_mod) 6
    then halt fault buffer
    else handle_packet i type (take size (drop 6 buffer)) (drop (6 + size) buffer)

pub record Read : Type 0 where
  pub incoming : Incoming
  pub buffer : Bytes
  pub delivered : List (Bytes × Bytes)
  pub stop : Stop

abbrev pub deliver : List (Bytes × Bytes) → Read → Read
deliver ps r = record r { delivered = ps ++ r.delivered }

unfoldable pub input_rounds : ℕ → Incoming → Bytes → Read
input_rounds zero i buffer = record {
  incoming = i;
  buffer = buffer;
  delivered = [];
  stop = out_of_fuel;
}
input_rounds (suc fuel) i buffer = elim (round i buffer) [
  | halt stop rest ↦ record { incoming = i; buffer = rest; delivered = []; stop = stop }
  | go i' rest ps ↦ deliver ps (input_rounds fuel i' rest)
]

-- A round that goes on takes at least six bytes off the buffer, so its length is fuel enough
-- (Packet/Chunks.antt).
unfoldable pub input : Incoming → Bytes → Read
input i buffer = input_rounds (suc (length buffer)) i buffer
