-- ===== src/Network/Peers.antt =====
-- The peers of the network module and what it tells the server
-- (builtin/network/network.cpp, builtin/network/api.h).
use buildat.Base.{ℕ, ◌≡◌, refl, Option, none, some, [], Bool, true, false, ◌==◌, arith}
use buildat.Base.Keys.{Bytes, Eq}
use buildat.Base.Map.{Map}
use buildat.Packet.Registry.{PacketStream, packet_stream}

-- A file descriptor; `none` is -1, the descriptor of a socket that is not open.
abbrev pub Fd : Type 0
Fd = Option ℕ

abbrev pub fd_eq : Fd → Fd → Bool
fd_eq none none = true
fd_eq none (some y) = false
fd_eq (some x) none = false
fd_eq (some x) (some y) = x == y

pub fd_eq_sound : (a b : Fd) → fd_eq a b ≡ true → a ≡ b
fd_eq_sound none none h = refl
fd_eq_sound none (some y) h = cc
fd_eq_sound (some x) none h = cc
fd_eq_sound (some x) (some y) h = ground arith

pub fd_eq_complete : (a b : Fd) → a ≡ b → fd_eq a b ≡ true
fd_eq_complete none none h = refl
fd_eq_complete none (some y) h = absurd cc
fd_eq_complete (some x) none h = absurd cc
fd_eq_complete (some x) (some y) h = ground arith

instance abbrev pub fd_eq_instance : Eq Fd
fd_eq_instance = record { beq = fd_eq; beq_iff = λ a b. (fd_eq_sound a b, fd_eq_complete a b) }

-- A TCPSocket: its descriptor and the address of the other side.
pub record Socket : Type 0 where
  pub fd : Fd
  pub remote_address : Bytes

pub record Peer : Type 0 where
  pub id : ℕ
  pub socket : Socket
  pub socket_buffer : Bytes
  pub packet_stream : PacketStream

-- The constructor of Peer.
unfoldable pub peer : ℕ → Socket → Peer
peer id socket = record {
  id = id;
  socket = socket;
  socket_buffer = [];
  packet_stream = packet_stream;
}

pub record PeerInfo : Type 0 where
  pub id : ℕ
  pub address : Bytes

-- The events that the module emits.
pub data Event : Type 0 where
  client_connected : PeerInfo → Event
  client_disconnected : PeerInfo → Event
  packet_received : ℕ → Bytes → Bytes → Event

-- A pointer to a peer is the id under which `peers` holds it.
pub record Network : Type 0 where
  pub listening_socket : Socket
  pub peers : Map ℕ Peer
  pub peers_by_socket : Map Fd ℕ
  pub next_peer_id : ℕ
  pub will_restore_after_unload : Bool

-- The constructor of Module; `socket` is a new socket.
unfoldable pub network : Socket → Network
network socket = record {
  listening_socket = socket;
  peers = [];
  peers_by_socket = [];
  next_peer_id = 1;
  will_restore_after_unload = false;
}
