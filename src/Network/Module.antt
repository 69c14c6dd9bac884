-- ===== src/Network/Module.antt =====
-- The handlers of the network module (builtin/network/network.cpp). The sockets are the engine's:
-- what accept and recv gave is an argument, and what is sent and emitted is a result.
use buildat.Base.{ℕ, ◌+◌, ◌%◌, none, some, List, [], ◌∷◌, ◌++◌, map, true, not, if◌then◌else◌}
use buildat.Base.Keys.{Bytes, nat_eq}
use buildat.Base.Map.{Map, lookup, insert, erase}
use buildat.Packet.Registry.{size_mod, Stop, returned, unknown_packet, fault, out_of_fuel}
use buildat.Packet.Input.{input}
use buildat.Packet.Output.{output}
use buildat.Network.Peers.{
  Fd, fd_eq, fd_eq_instance, Socket, Peer, peer, Event, client_connected, client_disconnected,
  packet_received, Network,
}

-- How a handler ends. `undefined` is a use of a pointer to nothing, or what stopped input().
pub data Outcome : Type 0 where
  done threw undefined : Outcome

pub record Handled : Type 0 where
  pub next : Network
  pub events : List Event
  pub outcome : Outcome

-- The part of a peer that on_unload() writes down.
unfoldable pub restore_info : Map ℕ Peer → List (ℕ × Fd)
restore_info [] = []
restore_info ((_, p) ∷ peers) = (p.id, p.socket.fd) ∷ restore_info peers

-- on_unload(): what goes into the archive for "network:restore_info".
unfoldable pub on_unload : Network → Network × (Fd × List (ℕ × Fd))
on_unload n =
    (record n { will_restore_after_unload = true }, (n.listening_socket.fd, restore_info n.peers))

-- The destructor: the descriptors that it does not close.
unfoldable pub released_fds : Network → List Fd
released_fds n =
    if n.will_restore_after_unload
    then n.listening_socket.fd ∷ map (λ (p : ℕ × Peer). p.1.socket.fd) n.peers
    else []

-- A peer is entered by its id and by its descriptor.
unfoldable pub enter : ℕ → Socket → Network → Network
enter id socket n = record n {
  peers = insert id (peer id socket) n.peers;
  peers_by_socket = insert socket.fd id n.peers_by_socket;
}

-- createTCPSocket(fd), where the engine asks the system for the remote address.
module _ (remote_address : Fd → Bytes) where
  unfoldable pub create_socket : Fd → Socket
  create_socket fd = record { fd = fd; remote_address = remote_address fd }

  unfoldable pub restore_peers : List (ℕ × Fd) → Network → Network
  restore_peers [] n = n
  restore_peers ((id, fd) ∷ infos) n = restore_peers infos (enter id (create_socket fd) n)

  -- on_continue(), when the archive has been read.
  unfoldable pub on_continue : Fd × List (ℕ × Fd) → Network → Network
  on_continue (listening_fd, infos) n =
      restore_peers infos (record n { listening_socket = create_socket listening_fd })

-- `socket` is the new socket, after accept_fd().
unfoldable pub on_listen_event : Socket → Network → Handled
on_listen_event socket n =
    let id = n.next_peer_id in
    record {
      next = enter id socket (record n { next_peer_id = (id + 1) % size_mod });
      events = client_connected (record { id = id; address = socket.remote_address }) ∷ [];
      outcome = done;
    }

-- What recv() gives.
pub data Received : Type 0 where
  connection_reset failed closed : Received
  got : Bytes → Received

-- The bytes of a peer go through its packet stream.
unfoldable pub receive : Peer → Bytes → Network → Handled
receive p bytes n =
    let read = input p.packet_stream.incoming (p.socket_buffer ++ bytes) in
    let p' : Peer = record p {
      socket_buffer = read.buffer;
      packet_stream = record p.packet_stream { incoming = read.incoming };
    } in
    record {
      next = record n { peers = insert p.id p' n.peers };
      events =
          map (λ (packet : Bytes × Bytes). packet_received p.id packet.0 packet.1) read.delivered;
      outcome = elim read.stop [
        | returned ↦ done
        | unknown_packet ↦ done
        | fault ↦ undefined
        | out_of_fuel ↦ undefined
      ];
    }

unfoldable pub disconnect : Peer → Network → Handled
disconnect p n = record {
  next = record n {
    peers_by_socket = erase p.socket.fd n.peers_by_socket;
    peers = erase p.id n.peers;
  };
  events = client_disconnected (record { id = p.id; address = p.socket.remote_address }) ∷ [];
  outcome = done;
}

-- What recv() on the socket of the peer gave.
unfoldable pub on_same_peer : Received → Peer → Network → Handled
on_same_peer connection_reset p n = record { next = n; events = []; outcome = done }
on_same_peer failed p n = record { next = n; events = []; outcome = threw }
on_same_peer closed p n = disconnect p n
on_same_peer (got bytes) p n = receive p bytes n

unfoldable pub on_peer_data : Fd → Received → Peer → Network → Handled
on_peer_data event_fd received p n =
    if not (fd_eq p.socket.fd event_fd)
    then record { next = n; events = []; outcome = threw }
    else on_same_peer received p n

unfoldable pub on_incoming_data : Fd → Received → Network → Handled
on_incoming_data event_fd received n = elim (lookup event_fd n.peers_by_socket) [
  | none ↦ record { next = n; events = []; outcome = done }
  | some id ↦ elim (lookup id n.peers) [
    | none ↦ record { next = n; events = []; outcome = undefined }
    | some p ↦ on_peer_data event_fd received p n
  ]
]

-- `socket` is what accepting a connection gives, `received` what reading from `fd` gives.
unfoldable pub handle_active_socket : Socket → Received → Fd → Network → Handled
handle_active_socket socket received fd n =
    if fd_eq fd n.listening_socket.fd
    then on_listen_event socket n
    else on_incoming_data fd received n

unfoldable pub get_sockets : Network → List Fd
get_sockets n = n.listening_socket.fd ∷ map (λ (p : ℕ × Peer). p.1.socket.fd) n.peers

unfoldable pub list_peers : Network → List ℕ
list_peers n = map (λ (p : ℕ × Peer). p.1.id) n.peers

-- What is sent: the descriptor and the bytes of each send_fd().
pub record Sent : Type 0 where
  pub next : Network
  pub chunks : List (Fd × Bytes)
  pub stop : Stop

-- send_u() to a peer.
unfoldable pub send_to : Peer → Bytes → Bytes → Network → Sent
send_to p name payload n =
    let written = output 2 name payload p.packet_stream in
    record {
      next = record n { peers = insert p.id (record p { packet_stream = written.stream }) n.peers };
      chunks = map (λ (chunk : Bytes). (p.socket.fd, chunk)) written.sent;
      stop = written.stop;
    }

unfoldable pub send : ℕ → Bytes → Bytes → Network → Sent
send recipient name payload n = elim (lookup recipient n.peers) [
  | none ↦ record { next = n; chunks = []; stop = returned }
  | some p ↦ send_to p name payload n
]
