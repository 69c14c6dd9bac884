-- ===== src/Network/Stream.antt =====
-- The bytes of a peer become events (on_incoming_data() in builtin/network/network.cpp).
use mathlib.Core.Path.{subst}
use buildat.Base.{
  ℕ, ◌≡◌, refl, sym, ap, ◌∙◌, some, List, [], ◌∷◌, ◌++◌, map, arith, some_injective, flatten,
}
use buildat.Base.Keys.{Bytes, nat_eq}
use buildat.Base.Map.{lookup, insert, lookup-insert_self}
use buildat.Packet.Registry.{PacketStream, Incoming, returned}
use buildat.Packet.Input.{Read, input}
use buildat.Packet.Chunks.{feed}
use buildat.Packet.Feed.{feed_step, send_all-feed}
use buildat.Packet.Sender.{IsSender}
use buildat.Packet.RoundTrip.{IsSynced, Fits, send_all}
use buildat.Network.Peers.{Fd, fd_eq_instance, Peer, Event, packet_received, Network}
use buildat.Network.Module.{got, receive, on_same_peer, on_incoming_data}
use buildat.Network.Invariant.{IsNetwork, on_incoming_data_led, on_incoming_data-IsNetwork}

-- One on_incoming_data() after the other, each with what recv() gave: the events.
unfoldable pub receive_all : Fd → List Bytes → Network → List Event
receive_all fd [] n = []
receive_all fd (c ∷ cs) n =
    let h = on_incoming_data fd (got c) n in h.events ++ receive_all fd cs h.next

-- The event for a packet of a peer.
abbrev pub received_from : ℕ → Bytes × Bytes → Event
received_from id packet = packet_received id packet.0 packet.1

map_append :
    (id : ℕ) (xs ys : List (Bytes × Bytes))
    → map (received_from id) (xs ++ ys) ≡ map (received_from id) xs ++ map (received_from id) ys
map_append id [] ys = refl
map_append id (x ∷ xs) ys = ap (λ l. received_from id x ∷ l) (map_append id xs ys)

feed_returned :
    (i : Incoming) (buffer c : Bytes) (cs : List Bytes)
    → (feed i buffer (c ∷ cs)).stop ≡ returned
    → (input i (buffer ++ c)).stop ≡ returned
unfolding feed
feed_returned i buffer c cs h = ground arith

-- What is left of a peer whose bytes were read.
record IsRead (i : ℕ) (fd : Fd) (n : Network) (read : Read) : Type 0 where
  leads : lookup fd n.peers_by_socket ≡ some i
  peer : Peer
  at : lookup i n.peers ≡ some peer
  incoming : peer.packet_stream.incoming ≡ read.incoming
  buffer : peer.socket_buffer ≡ read.buffer

same_peer :
    (fd : Fd) (c : Bytes) (n : Network) (i : ℕ) (p : Peer)
    → lookup fd n.peers_by_socket ≡ some i
    → p.id ≡ i
    → let read = input p.packet_stream.incoming (p.socket_buffer ++ c) in
      let h = on_same_peer (got c) p n in
      (h.events ≡ map (received_from i) read.delivered) × IsRead i fd h.next read
unfolding on_same_peer receive
same_peer fd c n i p e id =
    let read = input p.packet_stream.incoming (p.socket_buffer ++ c) in
    let q : Peer = record p {
      socket_buffer = read.buffer;
      packet_stream = record p.packet_stream { incoming = read.incoming };
    } in
    (
      ap
          (λ k.
            map (received_from k) (input p.packet_stream.incoming (p.socket_buffer ++ c)).delivered)
          id,
      record {
        leads = e;
        peer = q;
        at =
            ap (λ k. lookup k (insert p.id q n.peers)) (sym id) ∙ lookup-insert_self p.id q n.peers;
        incoming = refl;
        buffer = refl;
      },
    )

received :
    (fd : Fd) (c : Bytes) (n : Network) (i : ℕ) (p : Peer)
    → IsNetwork n
    → lookup fd n.peers_by_socket ≡ some i
    → lookup i n.peers ≡ some p
    → let read = input p.packet_stream.incoming (p.socket_buffer ++ c) in
      let h = on_incoming_data fd (got c) n in
      (h.events ≡ map (received_from i) read.delivered) × IsRead i fd h.next read
received fd c n i p v e at =
    let (q, at', same) = v.led fd i e in
    let one : q ≡ p = some_injective (sym at' ∙ at) in
    let here : p.socket.fd ≡ fd = ap (λ x. x.socket.fd) (sym one) ∙ same in
    let (id, _, _) = v.held i p at in
    subst
      (λ h.
        (h.events
          ≡ map (received_from i) (input p.packet_stream.incoming (p.socket_buffer ++ c)).delivered)
        × IsRead i fd h.next (input p.packet_stream.incoming (p.socket_buffer ++ c)))
      (sym (on_incoming_data_led fd (got c) n p i e at here)) (same_peer fd c n i p e id)

receive_all-feed :
    (cs : List Bytes) (fd : Fd) (n : Network) (i : ℕ) (p : Peer)
    → IsNetwork n
    → lookup fd n.peers_by_socket ≡ some i
    → lookup i n.peers ≡ some p
    → (feed p.packet_stream.incoming p.socket_buffer cs).stop ≡ returned
    → receive_all fd cs n
      ≡ map (received_from i) (feed p.packet_stream.incoming p.socket_buffer cs).delivered
unfolding receive_all
receive_all-feed [] fd n i p v e at h = unfold feed in refl
receive_all-feed (c ∷ cs) fd n i p v e at h =
    let read = input p.packet_stream.incoming (p.socket_buffer ++ c) in
    let first = feed_returned p.packet_stream.incoming p.socket_buffer c cs h in
    let step = feed_step p.packet_stream.incoming p.socket_buffer c cs first in
    let (told, r) = received fd c n i p v e at in
    let n' = (on_incoming_data fd (got c) n).next in
    let same : feed r.peer.packet_stream.incoming r.peer.socket_buffer cs
        ≡ feed read.incoming read.buffer cs =
      ap (λ x. feed x r.peer.socket_buffer cs) r.incoming
      ∙ ap (λ x. feed read.incoming x cs) r.buffer in
    let ends : (feed r.peer.packet_stream.incoming r.peer.socket_buffer cs).stop ≡ returned =
      ap (λ x. x.stop) same ∙ sym (ap (λ x. x.stop) step) ∙ h in
    let rest =
      receive_all-feed cs fd n' i r.peer (on_incoming_data-IsNetwork fd (got c) n v) r.leads r.at
        ends in
    ap (λ l. l ++ receive_all fd cs n') told
    ∙ ap (λ l. map (received_from i) read.delivered ++ l)
        (rest ∙ ap (λ x. map (received_from i) x.delivered) same)
    ∙ sym (map_append i read.delivered (feed read.incoming read.buffer cs).delivered)
    ∙ sym (ap (λ x. map (received_from i) x.delivered) step)

-- Bytes that another side sent with output() become the events of exactly its messages, in order,
-- under the id of the peer: for a peer that has no bytes waiting and agrees with the other side on
-- the types, for messages that can be carried and that find types below 128, and however recv()
-- cuts the bytes into pieces.
pub receive_all-send_all :
    (ms : List (Bytes × Bytes)) (cs : List Bytes) (fd : Fd) (n : Network) (i : ℕ) (p : Peer)
    (s : PacketStream)
    → IsNetwork n
    → lookup fd n.peers_by_socket ≡ some i
    → lookup i n.peers ≡ some p
    → p.socket_buffer ≡ []
    → IsSender s
    → IsSynced s p.packet_stream.incoming
    → Fits ms s
    → flatten cs ≡ (send_all ms s).1
    → receive_all fd cs n ≡ map (received_from i) ms
receive_all-send_all ms cs fd n i p s v e at empty w y f cut =
    let (all, ends) = send_all-feed ms cs p.packet_stream.incoming s w y f cut in
    let same : feed p.packet_stream.incoming p.socket_buffer cs
        ≡ feed p.packet_stream.incoming [] cs =
      ap (λ b. feed p.packet_stream.incoming b cs) empty in
    receive_all-feed cs fd n i p v e at (ap (λ x. x.stop) same ∙ ends)
    ∙ ap (λ x. map (received_from i) x.delivered) same
    ∙ ap (map (received_from i)) all
