-- ===== src/Network/Invariant.antt =====
-- The two maps of the network module agree (builtin/network/network.cpp).
use buildat.Base.{
  ℕ, ◌+◌, ◌==◌, ◌<◌, ◌≡◌, refl, sym, ap, ◌∙◌, none, some, [], ◌∷◌, true, if◌then◌else◌, arith, inl,
  inr, Option-cases, Bool-cases, some_injective,
}
use mathlib.Core.Path.{subst}
use buildat.Base.Keys.{Bytes, nat_eq}
use buildat.Base.Map.{lookup, insert, lookup-insert, lookup-erase}
use buildat.Packet.Registry.{size_mod}
use buildat.Network.Peers.{
  Fd, fd_eq, fd_eq_instance, fd_eq_sound, fd_eq_complete, Socket, Peer, peer, Network,
  client_disconnected,
}
use buildat.Network.Module.{
  done, Received, connection_reset, failed, closed, got, enter, on_listen_event, receive,
  disconnect, on_same_peer, on_peer_data, on_incoming_data, handle_active_socket,
}

-- Every peer is held under its own id, which has been given out, and its descriptor leads to it;
-- every descriptor that is entered leads to a peer with that descriptor.
pub record IsNetwork (n : Network) : Type 0 where
  pub held :
      (i : ℕ) (p : Peer)
      → lookup i n.peers ≡ some p
      → (p.id ≡ i) × (i < n.next_peer_id) × (lookup p.socket.fd n.peers_by_socket ≡ some i)
  pub led :
      (fd : Fd) (i : ℕ)
      → lookup fd n.peers_by_socket ≡ some i
      → (p : Peer) × (lookup i n.peers ≡ some p) × (p.socket.fd ≡ fd)

fd_eq_iff : (a b : Fd) → (fd_eq a b ≡ true → a ≡ b) × (a ≡ b → fd_eq a b ≡ true)
fd_eq_iff a b = (fd_eq_sound a b, fd_eq_complete a b)

on_listen_event-IsNetwork :
    (socket : Socket) (n : Network)
    → IsNetwork n
    → n.next_peer_id + 1 < size_mod
    → lookup socket.fd n.peers_by_socket ≡ none
    → IsNetwork (on_listen_event socket n).next
unfolding on_listen_event enter peer
on_listen_event-IsNetwork socket n v room fresh =
    let id = n.next_peer_id in
    record {
      held = λ i p e. ground (
        arith,
        lookup-insert id i (peer id socket) n.peers,
        lookup-insert socket.fd p.socket.fd id n.peers_by_socket,
        fd_eq_iff socket.fd p.socket.fd,
        v.held i p,
      );
      led = λ fd i e. elim (Bool-cases (fd_eq socket.fd fd)) [
        | inl same ↦ (
          peer id socket,
          ground (
            arith,
            lookup-insert id i (peer id socket) n.peers,
            lookup-insert socket.fd fd id n.peers_by_socket,
          ),
          ground (arith, fd_eq_iff socket.fd fd),
        )
        | inr other ↦
            let old : lookup fd n.peers_by_socket ≡ some i =
              ground (arith, lookup-insert socket.fd fd id n.peers_by_socket) in
            let (p, e', same) = v.led fd i old in
            (p, ground (arith, lookup-insert id i (peer id socket) n.peers, v.held i p e'), same)
      ];
    }

disconnect-IsNetwork :
    (p : Peer) (i : ℕ) (n : Network)
    → IsNetwork n
    → lookup i n.peers ≡ some p
    → IsNetwork (disconnect p n).next
unfolding disconnect
disconnect-IsNetwork p i n v at =
    let (id, _, _) = v.held i p at in
    record {
      held = λ j q e.
          let old : lookup j n.peers ≡ some q = ground (arith, lookup-erase p.id j n.peers) in
          let (own, given, leads) = v.held j q old in
          (
            own,
            given,
            ground (
              arith,
              leads,
              v.held i p at,
              lookup-erase p.id j n.peers,
              lookup-erase p.socket.fd q.socket.fd n.peers_by_socket,
              fd_eq_iff p.socket.fd q.socket.fd,
            ),
          );
      led = λ fd j e.
          let old : lookup fd n.peers_by_socket ≡ some j =
            ground (arith, lookup-erase p.socket.fd fd n.peers_by_socket) in
          let (q, e', same) = v.led fd j old in
          (
            q,
            ground (
              arith,
              lookup-erase p.socket.fd fd n.peers_by_socket,
              lookup-erase p.id j n.peers,
              fd_eq_iff p.socket.fd fd,
              v.held i p at,
            ),
            same,
          );
    }

-- A peer may change all but its id and its socket.
replaced-IsNetwork :
    (p q : Peer) (i : ℕ) (n : Network)
    → IsNetwork n
    → lookup i n.peers ≡ some p
    → q.id ≡ p.id
    → q.socket ≡ p.socket
    → IsNetwork (record n { peers = insert p.id q n.peers })
replaced-IsNetwork p q i n v at id socket = record {
  held = λ j x e.
      ground
        (arith, lookup-insert p.id j q n.peers, v.held i p at, v.held j x, ap (λ s. s.fd) socket);
  led = λ fd j e.
      let (x, e', same) = v.led fd j e in
      elim (Bool-cases (nat_eq.beq p.id j)) [
        | inl here ↦ (
          q,
          ground (arith, lookup-insert p.id j q n.peers),
          ground (arith, v.held i p at, ap (λ s. s.fd) socket),
        )
        | inr there ↦ (x, ground (arith, lookup-insert p.id j q n.peers), same)
      ];
}

receive-IsNetwork :
    (p : Peer) (i : ℕ) (bytes : Bytes) (n : Network)
    → IsNetwork n
    → lookup i n.peers ≡ some p
    → IsNetwork (receive p bytes n).next
unfolding receive
receive-IsNetwork p i bytes n v at = replaced-IsNetwork p _ i n v at refl refl

on_same_peer-IsNetwork :
    (received : Received) (p : Peer) (i : ℕ) (n : Network)
    → IsNetwork n
    → lookup i n.peers ≡ some p
    → IsNetwork (on_same_peer received p n).next
unfolding on_same_peer
on_same_peer-IsNetwork connection_reset p i n v at = v
on_same_peer-IsNetwork failed p i n v at = v
on_same_peer-IsNetwork closed p i n v at = disconnect-IsNetwork p i n v at
on_same_peer-IsNetwork (got bytes) p i n v at = receive-IsNetwork p i bytes n v at

-- Data for a known descriptor is that of its peer, and no pointer leads to nothing.
pub on_incoming_data_led :
    (event_fd : Fd) (received : Received) (n : Network) (p : Peer) (i : ℕ)
    → lookup event_fd n.peers_by_socket ≡ some i
    → lookup i n.peers ≡ some p
    → p.socket.fd ≡ event_fd
    → on_incoming_data event_fd received n ≡ on_same_peer received p n
unfolding on_incoming_data on_peer_data
on_incoming_data_led event_fd received n p i e at same =
    ground (arith, fd_eq_complete p.socket.fd event_fd same)

on_incoming_data_unknown :
    (event_fd : Fd) (received : Received) (n : Network)
    → lookup event_fd n.peers_by_socket ≡ none
    → (on_incoming_data event_fd received n).next ≡ n
unfolding on_incoming_data
on_incoming_data_unknown event_fd received n e = ground arith

pub on_incoming_data-IsNetwork :
    (event_fd : Fd) (received : Received) (n : Network)
    → IsNetwork n
    → IsNetwork (on_incoming_data event_fd received n).next
on_incoming_data-IsNetwork event_fd received n v =
    elim (Option-cases (lookup event_fd n.peers_by_socket)) [
      | inl e ↦ subst IsNetwork (sym (on_incoming_data_unknown event_fd received n e)) v
      | inr (i, e) ↦
          let (p, at, same) = v.led event_fd i e in
          subst (λ h. IsNetwork h.next)
            (sym (on_incoming_data_led event_fd received n p i e at same))
            (on_same_peer-IsNetwork received p i n v at)
    ]

-- handle_active_socket() keeps the two maps in agreement, while there are ids left and where the
-- system gives a new connection a descriptor that no peer has.
pub handle_active_socket-IsNetwork :
    (socket : Socket) (received : Received) (fd : Fd) (n : Network)
    → IsNetwork n
    → n.next_peer_id + 1 < size_mod
    → lookup socket.fd n.peers_by_socket ≡ none
    → IsNetwork (handle_active_socket socket received fd n).next
unfolding handle_active_socket
handle_active_socket-IsNetwork socket received fd n v room fresh =
    elim (Bool-cases (fd_eq fd n.listening_socket.fd)) [
      | inl e ↦ rw e (on_listen_event-IsNetwork socket n v room fresh)
      | inr e ↦ rw e (on_incoming_data-IsNetwork fd received n v)
    ]

disconnected :
    (fd : Fd) (n : Network) (i : ℕ) (p : Peer)
    → p.id ≡ i
    → p.socket.fd ≡ fd
    → let h = on_same_peer closed p n in
      (h.outcome ≡ done)
      × (h.events ≡ client_disconnected (record { id = i; address = p.socket.remote_address }) ∷ [])
      × ((j : ℕ) → lookup j h.next.peers ≡ (if i == j then none else lookup j n.peers))
      × ((fd' : Fd)
          → lookup fd' h.next.peers_by_socket
            ≡ (if fd_eq fd fd' then none else lookup fd' n.peers_by_socket))
unfolding on_same_peer disconnect
disconnected fd n i p id here = (
  refl,
  ap (λ k. client_disconnected (record { id = k; address = p.socket.remote_address }) ∷ []) id,
  λ j. lookup-erase p.id j n.peers ∙ ap (λ k. if k == j then none else lookup j n.peers) id,
  λ fd'.
      lookup-erase p.socket.fd fd' n.peers_by_socket
      ∙ ap (λ k. if fd_eq k fd' then none else lookup fd' n.peers_by_socket) here,
)

-- If the descriptor of a peer is closed by the other side, exactly that peer and that descriptor
-- are forgotten, one client_disconnected event with the id and the address of the peer is emitted,
-- and the handler returns.
pub on_incoming_data-closed :
    (fd : Fd) (n : Network) (i : ℕ) (p : Peer)
    → IsNetwork n
    → lookup fd n.peers_by_socket ≡ some i
    → lookup i n.peers ≡ some p
    → let h = on_incoming_data fd closed n in
      (h.outcome ≡ done)
      × (h.events ≡ client_disconnected (record { id = i; address = p.socket.remote_address }) ∷ [])
      × ((j : ℕ) → lookup j h.next.peers ≡ (if i == j then none else lookup j n.peers))
      × ((fd' : Fd)
          → lookup fd' h.next.peers_by_socket
            ≡ (if fd_eq fd fd' then none else lookup fd' n.peers_by_socket))
on_incoming_data-closed fd n i p v e at =
    let (q, at', same) = v.led fd i e in
    let one : q ≡ p = some_injective (sym at' ∙ at) in
    let (id, _, _) = v.held i p at in
    let here : p.socket.fd ≡ fd = ap (λ x. x.socket.fd) (sym one) ∙ same in
    subst
      (λ h.
        (h.outcome ≡ done)
        × (h.events
            ≡ client_disconnected (record { id = i; address = p.socket.remote_address }) ∷ [])
        × ((j : ℕ) → lookup j h.next.peers ≡ (if i == j then none else lookup j n.peers))
        × ((fd' : Fd)
            → lookup fd' h.next.peers_by_socket
              ≡ (if fd_eq fd fd' then none else lookup fd' n.peers_by_socket)))
      (sym (on_incoming_data_led fd closed n p i e at here)) (disconnected fd n i p id here)
