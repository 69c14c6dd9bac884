-- ===== src/Packet/Sender.antt =====
-- What output() sends, in a stream that has given out at most 28 types.
use buildat.Base.{
  ℕ, suc, ◌+◌, ◌-◌, ◌%◌, ◌≤◌, ◌<◌, ◌≡◌, ◌≢◌, refl, none, some, List, [], ◌∷◌, ◌++◌, arith, ltb,
  lt→ltb, true,
}
use buildat.Base.Keys.{Bytes, bytes_eq_instance, nat_eq, bytes_eq_iff}
use buildat.Base.Map.{lookup, insert, lookup-insert_self, lookup-insert, lookup-insert_ne}
use buildat.Packet.Registry.{
  size_mod, define_packet_type, PacketStream, Outgoing, outgoing_get, outgoing_get_name, returned,
}
use buildat.Packet.Wire.{frame}
use buildat.Packet.Output.{Written, definition, send_types, send_packet, output}

-- The types given out are 0 and those from 100 up to `next_type`, every one has its name, and
-- all of them have been announced.
pub record IsSender (s : PacketStream) : Type 0 where
  pub low : 100 ≤ s.outgoing.next_type
  pub high : s.outgoing.next_type ≤ 128
  pub announced : s.highest_known_type + 1 ≡ s.outgoing.next_type
  pub definer : lookup define_packet_type s.outgoing.types ≡ some 0
  pub typed :
      (n : Bytes) (t : ℕ)
      → lookup n s.outgoing.types ≡ some t
      → (lookup t s.outgoing.names ≡ some n) × (t < s.outgoing.next_type)

-- A name that has a type is sent in one frame, and nothing changes.
pub output_known :
    (f : ℕ) (name payload : Bytes) (s : PacketStream) (t : ℕ)
    → lookup name s.outgoing.types ≡ some t
    → s.outgoing.next_type ≤ (s.highest_known_type + 1) % size_mod
    → output (suc f) name payload s
      ≡ record { stream = s; sent = frame t payload ∷ []; stop = returned }
unfolding output outgoing_get send_packet
output_known f name payload s t e h = ground arith

-- The state after a new name.
abbrev pub with_name : Bytes → PacketStream → PacketStream
with_name name s = record s {
  outgoing = record {
    types = insert name s.outgoing.next_type s.outgoing.types;
    names = insert s.outgoing.next_type name s.outgoing.names;
    next_type = s.outgoing.next_type + 1;
  };
  highest_known_type = s.outgoing.next_type;
}

-- The loop over one new type.
send_types_one :
    (call : Bytes → Bytes → PacketStream → Written) (r t1 : ℕ) (s : PacketStream) (name : Bytes)
    (sent : List Bytes)
    → t1 < 65536
    → t1 + 1 ≡ s.outgoing.next_type
    → lookup t1 s.outgoing.names ≡ some name
    → call define_packet_type (definition t1 name) s
      ≡ record { stream = s; sent = sent; stop = returned }
    → send_types call (suc (suc r)) t1 s ≡ record { stream = s; sent = sent ++ []; stop = returned }
unfolding send_types outgoing_get_name
send_types_one call r t1 s name sent h1 h2 h3 h4 = ground arith

outgoing_get_new :
    (name : Bytes) (o : Outgoing)
    → lookup name o.types ≡ none
    → o.next_type < 65536
    → outgoing_get name o ≡ (
      o.next_type,
      record {
        types = insert name o.next_type o.types;
        names = insert o.next_type name o.names;
        next_type = o.next_type + 1;
      },
    )
unfolding outgoing_get
outgoing_get_new name o e h = ground arith

name-ne-define :
    (name : Bytes) (s : PacketStream)
    → IsSender s
    → lookup name s.outgoing.types ≡ none
    → name ≢ define_packet_type
name-ne-define name s v e same = ground (arith, v.definer)

with_name-definer :
    (name : Bytes) (s : PacketStream)
    → IsSender s
    → lookup name s.outgoing.types ≡ none
    → lookup define_packet_type (with_name name s).outgoing.types ≡ some 0
with_name-definer name s v e =
    rw
      (lookup-insert_ne name define_packet_type s.outgoing.next_type s.outgoing.types
        (name-ne-define name s v e))
      v.definer

pub with_name-IsSender :
    (name : Bytes) (s : PacketStream)
    → IsSender s
    → lookup name s.outgoing.types ≡ none
    → s.outgoing.next_type < 128
    → IsSender (with_name name s)
with_name-IsSender name s v e room = record {
  low = ground (arith, v.low);
  high = ground arith;
  announced = refl;
  definer = with_name-definer name s v e;
  typed = λ n t h. ground (
    arith,
    v.typed n t,
    lookup-insert name n s.outgoing.next_type s.outgoing.types,
    lookup-insert s.outgoing.next_type t name s.outgoing.names,
    bytes_eq_iff name n,
  );
}

-- A new name is announced first, under the next free type.
pub output_new :
    (name payload : Bytes) (s : PacketStream)
    → IsSender s
    → lookup name s.outgoing.types ≡ none
    → s.outgoing.next_type < 65536
    → output 2 name payload s ≡ record {
      stream = with_name name s;
      sent =
          frame 0 (definition s.outgoing.next_type name) ∷ frame s.outgoing.next_type payload ∷ [];
      stop = returned;
    }
unfolding output send_packet
output_new name payload s v e room =
    let next = s.outgoing.next_type in
    let s' = with_name name s in
    let start : (s.highest_known_type + 1) % size_mod ≡ next = omega (arith, v.announced) in
    let rounds : next + 1 - s.highest_known_type ≡ suc 1 = omega (arith, v.announced) in
    let back : next + 1 - 1 ≡ next = omega arith in
    let more : ltb next (next + 1) ≡ true = lt→ltb next (next + 1) (omega arith) in
    let inner =
      output_known 0 define_packet_type (definition next name) s' 0 (with_name-definer name s v e)
        (omega arith) in
    let loop =
      send_types_one (output 1) 1 next s' name (frame 0 (definition next name) ∷ []) room refl
        (lookup-insert_self next name s.outgoing.names) inner in
    rw (outgoing_get_new name s.outgoing e (omega arith), start, rounds, back, more, loop) refl
