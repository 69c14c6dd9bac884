-- ===== src/Packet/Registry.antt =====
-- The two packet type registries and the state of a stream (src/interface/packet_stream.h).
use buildat.Base.{ℕ, ◌+◌, ◌%◌, ◌^◌, Option, none, some, [], ◌∷◌}
use buildat.Base.Keys.{Bytes, nat_eq, bytes_eq_instance}
use buildat.Base.Map.{Map, lookup, insert}
use Prim.Native.Char.{code}
use Prim.Native.String.{String}

-- The range of `size_t`.
abbrev pub size_mod : ℕ
size_mod = 2 ^ 64

-- The bytes of an ASCII literal.
abbrev pub bytes : String → Bytes
bytes String.[] = []
bytes (String.◌∷◌ c s) = code c ∷ bytes s

abbrev pub define_packet_type : Bytes
define_packet_type = bytes "core:define_packet_type"

pub record Outgoing : Type 0 where
  pub types : Map Bytes ℕ
  pub names : Map ℕ Bytes
  pub next_type : ℕ

pub record Incoming : Type 0 where
  pub types : Map Bytes ℕ
  pub names : Map ℕ Bytes

unfoldable pub outgoing_set : ℕ → Bytes → Outgoing → Outgoing
outgoing_set type name o = record o {
  types = insert name type o.types;
  names = insert type name o.names;
}

unfoldable pub outgoing_get : Bytes → Outgoing → ℕ × Outgoing
outgoing_get name o = elim (lookup name o.types) [
  | some type ↦ (type, o)
  | none ↦ (
    o.next_type,
    record {
      types = insert name o.next_type o.types;
      names = insert o.next_type name o.names;
      next_type = (o.next_type + 1) % size_mod;
    },
  )
]

-- `none` is the exception UnknownPacketReceived.
unfoldable pub outgoing_get_name : ℕ → Outgoing → Option Bytes
outgoing_get_name type o = lookup type o.names

unfoldable pub incoming_set : ℕ → Bytes → Incoming → Incoming
incoming_set type name i = record {
  types = insert name type i.types;
  names = insert type name i.names;
}

unfoldable pub incoming_get_type : Bytes → Incoming → Option ℕ
incoming_get_type name i = lookup name i.types

unfoldable pub incoming_get_name : ℕ → Incoming → Option Bytes
incoming_get_name type i = lookup type i.names

pub record PacketStream : Type 0 where
  pub outgoing : Outgoing
  pub incoming : Incoming
  pub highest_known_type : ℕ

-- The constructor of PacketStream.
unfoldable pub packet_stream : PacketStream
unfolding outgoing_set incoming_set
packet_stream = record {
  outgoing = outgoing_set 0 define_packet_type (record { types = []; names = []; next_type = 100 });
  incoming = incoming_set 0 define_packet_type (record { types = []; names = [] });
  highest_known_type = 99;
}

-- How a call ends: it returns, throws UnknownPacketReceived, or does something undefined (a read
-- behind a string, a range that ends before it begins). `out_of_fuel` is the model's own.
pub data Stop : Type 0 where
  returned unknown_packet fault out_of_fuel : Stop
