-- ===== src/Packet/Output.antt =====
-- PacketStream::output (src/impl/packet_stream.cpp). What the callback is given is a list.
use buildat.Base.{
  ℕ, zero, suc, ◌+◌, ◌-◌, ◌%◌, none, some, List, [], ◌∷◌, ◌++◌, ltb, if◌then◌else◌, length,
}
use buildat.Base.Keys.{Bytes}
use buildat.Packet.Registry.{
  size_mod, define_packet_type, PacketStream, Stop, returned, unknown_packet, out_of_fuel,
  outgoing_get, outgoing_get_name,
}
use buildat.Packet.Wire.{byte, frame}

pub record Written : Type 0 where
  pub stream : PacketStream
  pub sent : List Bytes
  pub stop : Stop

-- What follows a call in the source is done if the call returned.
abbrev pub and_then : Written → (PacketStream → Written) → Written
and_then w k = elim w.stop [
  | returned ↦ (let r = k w.stream in record r { sent = w.sent ++ r.sent })
  | _ ↦ w
]

-- The data of a define_packet_type packet.
unfoldable pub definition : ℕ → Bytes → Bytes
definition t1 name =
    let n = length name in byte t1 0 ∷ byte t1 1 ∷ byte n 0 ∷ byte n 1 ∷ byte n 2 ∷ byte n 3 ∷ name

-- The loop that sends the types that the other side does not know. `call` is output() itself.
unfoldable pub send_types :
    (Bytes → Bytes → PacketStream → Written) → ℕ → ℕ → PacketStream → Written
send_types call zero t1 s = record { stream = s; sent = []; stop = out_of_fuel }
send_types call (suc rounds) t1 s =
    let rest = λ (s' : PacketStream). send_types call rounds ((t1 + 1) % size_mod) s' in
    if ltb t1 s.outgoing.next_type
    then elim (outgoing_get_name t1 s.outgoing) [
      | none ↦ record { stream = s; sent = []; stop = unknown_packet }
      | some name ↦ and_then (call define_packet_type (definition t1 name) s) rest
    ]
    else record { stream = s; sent = []; stop = returned }

-- The actual packet.
unfoldable pub send_packet : ℕ → Bytes → PacketStream → Written
send_packet type payload s = record { stream = s; sent = frame type payload ∷ []; stop = returned }

-- The fuel is the depth of the calls of output() by itself: two are enough (Packet/Sender.antt).
unfoldable pub output : ℕ → Bytes → Bytes → PacketStream → Written
output zero name payload s = record { stream = s; sent = []; stop = out_of_fuel }
output (suc fuel) name payload s =
    let call = output fuel in
    let (type, o) = outgoing_get name s.outgoing in
    let was = s.highest_known_type in
    if ltb ((was + 1) % size_mod) o.next_type
    then and_then
        (send_types call (suc (o.next_type - was)) ((was + 1) % size_mod)
          (record s { outgoing = o; highest_known_type = o.next_type - 1 }))
        (send_packet type payload)
    else send_packet type payload (record s { outgoing = o })
