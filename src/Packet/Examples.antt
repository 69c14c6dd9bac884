-- ===== src/Packet/Examples.antt =====
-- Tests of the packet protocol, and its theorems at concrete inputs.
use mathlib.Core.List.{append-nil}
use buildat.Base.{◌≡◌, ◌≢◌, refl, List, [], ◌∷◌, arith, inr, flatten}
use buildat.Base.Keys.{Bytes, nat_eq, bytes_eq_instance}
use buildat.Base.Map.{lookup, insert}
use buildat.Packet.Registry.{
  PacketStream, packet_stream, outgoing_set, incoming_set, incoming_get_name, outgoing_get,
  outgoing_get_name, bytes, returned, unknown_packet, out_of_fuel,
}
use buildat.Packet.Wire.{frame, read_type, read_size}
use buildat.Packet.Output.{output, definition, send_types, send_packet}
use buildat.Packet.Input.{input, input_rounds, round, handle_packet}
use buildat.Packet.Chunks.{input-total, feed}
use buildat.Packet.Sender.{IsSender}
use buildat.Packet.RoundTrip.{
  IsMessage, Fits, Delivers, output-Delivers, packet_stream-IsSender, packet_stream-IsSynced,
  send_all,
}
use buildat.Packet.Feed.{feed-input, send_all-feed}
use buildat.Packet.HighTypes.{output_29th_name}

abbrev chat : Bytes
chat = bytes "chat"

abbrev hello : Bytes
hello = bytes "hello"

chat-IsMessage : IsMessage chat hello
chat-IsMessage = record { plain = λ e. cc; short_name = omega arith; short_payload = omega arith }

-- The first packet of a new stream: a definition of 42 - 6 bytes under type 0, and the packet.
first_packet :
    (output 2 chat hello packet_stream).sent
    ≡ (0 ∷ 0 ∷ 10 ∷ 0 ∷ 0 ∷ 0 ∷ 100 ∷ 0 ∷ 4 ∷ 0 ∷ 0 ∷ 0 ∷ chat)
      ∷ (100 ∷ 0 ∷ 5 ∷ 0 ∷ 0 ∷ 0 ∷ hello)
      ∷ []
unfolding output send_types send_packet definition frame outgoing_get outgoing_get_name
    packet_stream outgoing_set lookup insert
first_packet = refl

input-total_example : (input packet_stream.incoming (0 ∷ 0 ∷ 5 ∷ [])).stop ≢ out_of_fuel
input-total_example = input-total packet_stream.incoming (0 ∷ 0 ∷ 5 ∷ [])

output-Delivers_example :
    Delivers packet_stream.incoming chat hello (output 2 chat hello packet_stream)
unfolding packet_stream outgoing_set
output-Delivers_example =
    output-Delivers packet_stream.incoming packet_stream chat hello packet_stream-IsSender
      packet_stream-IsSynced chat-IsMessage (inr (omega arith))

-- Two packets, and the second arrives in two pieces.
abbrev pieces : List Bytes
pieces = frame 100 (1 ∷ []) ∷ (100 ∷ 0 ∷ 1 ∷ []) ∷ (0 ∷ 0 ∷ 0 ∷ 2 ∷ []) ∷ []

abbrev chat_known : PacketStream
chat_known = record packet_stream { incoming = incoming_set 100 chat packet_stream.incoming }

pieces_returned : (input chat_known.incoming (flatten pieces)).stop ≡ returned
unfolding input input_rounds round handle_packet read_type read_size frame incoming_set
    incoming_get_name packet_stream lookup insert
pieces_returned = refl

feed-input_example : feed chat_known.incoming [] pieces ≡ input chat_known.incoming (flatten pieces)
feed-input_example = feed-input pieces chat_known.incoming pieces_returned

abbrev series : List (Bytes × Bytes)
series = (chat, hello) ∷ []

series-Fits : Fits series packet_stream
unfolding packet_stream outgoing_set
series-Fits = (chat-IsMessage, inr (omega arith), tt)

send_all-feed_example :
    ((feed packet_stream.incoming [] ((send_all series packet_stream).1 ∷ [])).delivered ≡ series)
    × ((feed packet_stream.incoming [] ((send_all series packet_stream).1 ∷ [])).stop ≡ returned)
unfolding send_all
send_all-feed_example =
    send_all-feed series ((send_all series packet_stream).1 ∷ []) packet_stream.incoming
      packet_stream packet_stream-IsSender packet_stream-IsSynced series-Fits
      (append-nil ((send_all series packet_stream).1))

-- A stream whose types up to 127 are given out.
abbrev full : PacketStream
full = record {
  outgoing = record packet_stream.outgoing { next_type = 128 };
  incoming = packet_stream.incoming;
  highest_known_type = 127;
}

full-IsSender : IsSender full
full-IsSender = record {
  low = omega arith;
  high = omega arith;
  announced = refl;
  definer = packet_stream-IsSender.definer;
  typed = λ n t h.
      let (named, below) = packet_stream-IsSender.typed n t h in
      (named, omega (arith, packet_stream_next));
}
  where
    packet_stream_next : packet_stream.outgoing.next_type ≡ 100
    packet_stream_next = unfold packet_stream outgoing_set in refl

output_29th_name_example :
    ((input packet_stream.incoming (flatten (output 2 chat hello full).sent)).delivered ≡ [])
    × ((input packet_stream.incoming (flatten (output 2 chat hello full).sent)).stop
        ≡ unknown_packet)
unfolding packet_stream outgoing_set incoming_set lookup insert
output_29th_name_example =
    output_29th_name packet_stream.incoming full chat hello full-IsSender
      (record { known = packet_stream-IsSynced.known }) refl refl refl (omega arith) (omega arith)
