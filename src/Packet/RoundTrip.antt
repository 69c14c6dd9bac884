-- ===== src/Packet/RoundTrip.antt =====
-- What output() sends, input() delivers.
use mathlib.Core.List.{append-nil, append_assoc}
use buildat.Base.{
  ℕ, suc, ◌+◌, ◌<◌, ◌≡◌, ◌≢◌, refl, ap, ◌∙◌, none, some, List, [], ◌∷◌, ◌++◌, arith, length, ◌⊎◌,
  inl, inr, Option-cases, flatten,
}
use buildat.Base.Keys.{Bytes, bytes_eq_instance, nat_eq, bytes_eq_iff}
use buildat.Base.Map.{lookup, insert, lookup-insert_self, lookup-insert, beq-ne}
use buildat.Packet.Registry.{
  define_packet_type, PacketStream, packet_stream, Incoming, outgoing_set, incoming_set,
  incoming_get_name, returned,
}
use buildat.Packet.Wire.{frame}
use buildat.Packet.Output.{Written, definition, output}
use buildat.Packet.Input.{go, handle_packet, round, deliver, input, input_rounds}
use buildat.Packet.Frames.{round-frame, define_type-definition}
use buildat.Packet.Chunks.{input_rounds-fuel, input_rounds-go, round_shrinks}
use buildat.Packet.Sender.{IsSender, output_known, output_new, with_name, with_name-IsSender}

-- The receiver knows every type by the name that the sender has for it.
pub record IsSynced (s : PacketStream) (i : Incoming) : Type 0 where
  pub known : (t : ℕ) (n : Bytes) → lookup t s.outgoing.names ≡ some n → lookup t i.names ≡ some n

pub input-go :
    (i j : Incoming) (a c : Bytes) (ps : List (Bytes × Bytes))
    → round i a ≡ go j c ps
    → input i a ≡ deliver ps (input j c)
unfolding input
input-go i j a c ps e =
    let shorter = round_shrinks i j a c ps e in
    input_rounds-go (length a) i j a c ps e
    ∙ ap (deliver ps)
        (input_rounds-fuel (length a) (suc (length c)) j c (omega arith) (omega arith))

-- A frame of a known type delivers one packet.
input-frame :
    (i : Incoming) (t : ℕ) (name payload rest : Bytes)
    → lookup t i.names ≡ some name
    → name ≢ define_packet_type
    → t < 128
    → length payload < 2147483648
    → input i (frame t payload ++ rest) ≡ deliver ((name, payload) ∷ []) (input i rest)
unfolding handle_packet incoming_get_name
input-frame i t name payload rest e ne ht hn =
    input-go i i (frame t payload ++ rest) rest ((name, payload) ∷ []) (
      round-frame i t payload rest (omega arith) hn
      ∙ rw (e, handle_packet, incoming_get_name, beq-ne name define_packet_type ne))

pub length-definition : (t : ℕ) (name : Bytes) → length (definition t name) ≡ length name + 6
unfolding definition
length-definition t name = omega arith

-- A definition frame enters the type.
input-definition :
    (i : Incoming) (t : ℕ) (name rest : Bytes)
    → lookup 0 i.names ≡ some define_packet_type
    → t < 128
    → length name < 128
    → input i (frame 0 (definition t name) ++ rest) ≡ input (incoming_set t name i) rest
unfolding handle_packet incoming_get_name
input-definition i t name rest e ht hn =
    input-go i (incoming_set t name i) (frame 0 (definition t name) ++ rest) rest [] (
      round-frame i 0 (definition t name) rest (omega arith)
        (omega (arith, length-definition t name))
      ∙ rw (e, handle_packet, incoming_get_name) (define_type-definition i t name rest ht hn))

-- A message that the protocol can carry.
pub record IsMessage (name payload : Bytes) : Type 0 where
  pub plain : name ≢ define_packet_type
  pub short_name : length name < 128
  pub short_payload : length payload < 2147483648

-- The name has a type, or there is a type below 128 left for it.
abbrev pub HasType : Bytes → PacketStream → Type 0
HasType name s = ((t : ℕ) × (lookup name s.outgoing.types ≡ some t)) ⊎ (s.outgoing.next_type < 128)

-- What is wanted of one call of output().
pub record Delivers (i : Incoming) (name payload : Bytes) (w : Written) : Type 0 where
  pub stop : w.stop ≡ returned
  pub sender : IsSender w.stream
  pub receiver : Incoming
  pub synced : IsSynced w.stream receiver
  pub arrives :
      (rest : Bytes)
      → input i (flatten w.sent ++ rest) ≡ deliver ((name, payload) ∷ []) (input receiver rest)

Delivers-known :
    (i : Incoming) (s : PacketStream) (name payload : Bytes) (t : ℕ)
    → IsSender s
    → IsSynced s i
    → IsMessage name payload
    → lookup name s.outgoing.types ≡ some t
    → Delivers i name payload (record { stream = s; sent = frame t payload ∷ []; stop = returned })
Delivers-known i s name payload t v y m e =
    let (named, below) = v.typed name t e in
    record {
      stop = refl;
      sender = v;
      receiver = i;
      synced = y;
      arrives = λ rest. rw (append-nil (frame t payload)) (
          input-frame i t name payload rest (y.known t name named) m.plain (omega (arith, v.high))
            m.short_payload);
    }

with_name-IsSynced :
    (i : Incoming) (s : PacketStream) (name : Bytes)
    → IsSynced s i
    → IsSynced (with_name name s) (incoming_set s.outgoing.next_type name i)
unfolding incoming_set
with_name-IsSynced i s name y = record {
  known = λ t n h. ground (
    arith,
    y.known t n,
    lookup-insert s.outgoing.next_type t name s.outgoing.names,
    lookup-insert s.outgoing.next_type t name i.names,
  );
}

Delivers-new :
    (i : Incoming) (s : PacketStream) (name payload : Bytes)
    → IsSender s
    → IsSynced s i
    → IsMessage name payload
    → lookup name s.outgoing.types ≡ none
    → s.outgoing.next_type < 128
    → Delivers i name payload (record {
      stream = with_name name s;
      sent =
          frame 0 (definition s.outgoing.next_type name) ∷ frame s.outgoing.next_type payload ∷ [];
      stop = returned;
    })
unfolding incoming_set
Delivers-new i s name payload v y m e room =
    let next = s.outgoing.next_type in
    let i' = incoming_set next name i in
    let define = y.known 0 define_packet_type (v.typed define_packet_type 0 v.definer).0 in
    let named : lookup next i'.names ≡ some name = lookup-insert_self next name i.names in
    record {
      stop = refl;
      sender = with_name-IsSender name s v e room;
      receiver = i';
      synced = with_name-IsSynced i s name y;
      arrives = λ rest.
          rw
            (
              append-nil (frame next payload),
              append_assoc (frame 0 (definition next name)) (frame next payload) rest,
              input-definition i next name (frame next payload ++ rest) define room m.short_name,
            )
            (input-frame i' next name payload rest named m.plain room m.short_payload);
    }

HasType-new :
    (name : Bytes) (s : PacketStream)
    → lookup name s.outgoing.types ≡ none
    → HasType name s
    → s.outgoing.next_type < 128
HasType-new name s e (inl (t, h)) = ground arith
HasType-new name s e (inr h) = h

-- One call of output(), for a message that can be carried and has a type or finds one below 128
-- free, sends bytes from which the other side, where it agreed on the types, delivers this packet
-- and no other, whatever comes behind; both sides agree on the types again.
pub output-Delivers :
    (i : Incoming) (s : PacketStream) (name payload : Bytes)
    → IsSender s
    → IsSynced s i
    → IsMessage name payload
    → HasType name s
    → Delivers i name payload (output 2 name payload s)
output-Delivers i s name payload v y m room = elim (Option-cases (lookup name s.outgoing.types)) [
  | inr (t, e) ↦
      rw (output_known 1 name payload s t e (omega (arith, v.announced, v.high)))
        (Delivers-known i s name payload t v y m e)
  | inl e ↦
      let free = HasType-new name s e room in
      rw (output_new name payload s v e (omega arith)) (Delivers-new i s name payload v y m e free)
]

-- A series of calls of output(): the stream behind it and the bytes it sent.
unfoldable pub send_all : List (Bytes × Bytes) → PacketStream → PacketStream × Bytes
send_all [] s = (s, [])
send_all ((name, payload) ∷ ms) s =
    let w = output 2 name payload s in
    let (s', sent) = send_all ms w.stream in (s', flatten w.sent ++ sent)

-- Every message of the series can be carried, and finds its type or a free one below 128.
abbrev pub Fits : List (Bytes × Bytes) → PacketStream → Type 0
Fits [] s = Unit {0}
Fits ((name, payload) ∷ ms) s =
    IsMessage name payload × HasType name s × Fits ms (output 2 name payload s).stream

-- The series arrives: input() delivers exactly its messages, in order, and returns with nothing
-- left in the buffer.
pub send_all-input :
    (ms : List (Bytes × Bytes)) (i : Incoming) (s : PacketStream)
    → IsSender s
    → IsSynced s i
    → Fits ms s
    → (input i (send_all ms s).1).delivered ≡ ms
      × (input i (send_all ms s).1).stop ≡ returned
      × (input i (send_all ms s).1).buffer ≡ []
unfolding send_all
send_all-input [] i s v y f = unfold input input_rounds round in (refl, refl, refl)
send_all-input ((name, payload) ∷ ms) i s v y f =
    let d = output-Delivers i s name payload v y f.0 f.1 in
    let w = output 2 name payload s in
    let ih = send_all-input ms d.receiver w.stream d.sender d.synced f.2 in
    rw (d.arrives (send_all ms w.stream).1) (ap (◌∷◌ (name, payload)) ih.0, ih.1, ih.2)

-- A new stream is a sender, and in step with the receiving side of a new stream.
pub packet_stream-IsSender : IsSender packet_stream
unfolding packet_stream outgoing_set lookup insert
packet_stream-IsSender = record {
  low = omega arith;
  high = omega arith;
  announced = refl;
  definer = refl;
  typed = λ n t h. ground (arith, bytes_eq_iff define_packet_type n);
}

pub packet_stream-IsSynced : IsSynced packet_stream packet_stream.incoming
unfolding packet_stream outgoing_set incoming_set
packet_stream-IsSynced = record { known = λ t n h. h }
