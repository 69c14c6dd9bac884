-- ===== src/Network/Reload.antt =====
-- What a reload of the network module does to the peers (builtin/network/network.cpp).
use buildat.Base.{ℕ, ◌≡◌, ◌≢◌, refl, ◌∙◌, some, List, [], ◌∷◌, arith}
use buildat.Base.Keys.{Bytes, nat_eq}
use buildat.Base.Map.{lookup, lookup-insert_self, lookup-insert_ne, beq-ne}
use buildat.Network.Peers.{
  Fd, fd_eq_instance, Socket, Peer, peer, client_connected, Network, network,
}
use buildat.Network.Module.{
  threw, Received, enter, create_socket, restore_peers, on_continue, on_listen_event, on_peer_data,
  on_incoming_data,
}

module _ (remote_address : Fd → Bytes) where
  restore_peers-next_peer_id :
      (infos : List (ℕ × Fd)) (n : Network)
      → (restore_peers remote_address infos n).next_peer_id ≡ n.next_peer_id
  unfolding restore_peers enter
  restore_peers-next_peer_id [] n = refl
  restore_peers-next_peer_id ((id, fd) ∷ infos) n =
      restore_peers-next_peer_id infos (enter id (create_socket remote_address fd) n)

  reload-next_peer_id :
      (infos : Fd × List (ℕ × Fd)) (socket : Socket)
      → (on_continue remote_address infos (network socket)).next_peer_id ≡ 1
  unfolding on_continue network
  reload-next_peer_id (fd, infos) socket = restore_peers-next_peer_id infos _

-- A descriptor that leads to a peer with another socket makes on_incoming_data() throw.
stale_fd :
    (fd : Fd) (received : Received) (n : Network) (i : ℕ) (p : Peer)
    → lookup fd n.peers_by_socket ≡ some i
    → lookup i n.peers ≡ some p
    → p.socket.fd ≢ fd
    → (on_incoming_data fd received n).outcome ≡ threw
unfolding on_incoming_data on_peer_data
stale_fd fd received n i p e at other = ground (arith, beq-ne p.socket.fd fd other)

taken_over :
    (socket new : Socket) (old : Peer) (n : Network)
    → n.next_peer_id ≡ 1
    → lookup old.socket.fd n.peers_by_socket ≡ some 1
    → new.fd ≢ old.socket.fd
    → let h = on_listen_event new n in
      (lookup 1 h.next.peers ≡ some (peer 1 new))
      × (lookup old.socket.fd h.next.peers_by_socket ≡ some 1)
      × (h.events ≡ client_connected (record { id = 1; address = new.remote_address }) ∷ [])
unfolding on_listen_event enter
taken_over socket new old n first leads other = rw first (
  lookup-insert_self 1 (peer 1 new) n.peers,
  lookup-insert_ne new.fd old.socket.fd 1 n.peers_by_socket other ∙ leads,
  refl,
)

module _ (remote_address : Fd → Bytes) where
  -- After a reload, the ids are given out from 1 again although peers were restored: if the peer 1
  -- was restored and is entered under its descriptor, the next connection, on another descriptor,
  -- is announced as client 1 and takes the place of that peer, and any event on the old
  -- descriptor then makes on_incoming_data() throw.
  pub reload-on_listen_event :
      (infos : Fd × List (ℕ × Fd)) (socket new : Socket) (old : Peer)
      → let n = on_continue remote_address infos (network socket) in
        lookup 1 n.peers ≡ some old
        → lookup old.socket.fd n.peers_by_socket ≡ some 1
        → new.fd ≢ old.socket.fd
        → let h = on_listen_event new n in
          (lookup 1 h.next.peers ≡ some (peer 1 new))
          × (h.events ≡ client_connected (record { id = 1; address = new.remote_address }) ∷ [])
          × ((received : Received)
              → (on_incoming_data old.socket.fd received h.next).outcome ≡ threw)
  unfolding peer
  reload-on_listen_event infos socket new old held leads other =
      let n = on_continue remote_address infos (network socket) in
      let (there, by_fd, told) =
        taken_over socket new old n (reload-next_peer_id remote_address infos socket) leads other in
      (
        there,
        told,
        λ received.
            stale_fd old.socket.fd received (on_listen_event new n).next 1 (peer 1 new) by_fd there
              other,
      )
