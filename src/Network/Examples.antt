-- ===== src/Network/Examples.antt =====
-- The theorems on the network module at concrete inputs.
use buildat.Base.{
  ℕ, ◌+◌, ◌^◌, ◌<◌, ◌≡◌, ◌≢◌, refl, none, some, List, [], ◌∷◌, arith, if◌then◌else◌, ◌==◌, inr, map,
}
use buildat.Base.Keys.{Bytes, nat_eq}
use buildat.Base.Map.{lookup, insert}
use buildat.Network.Peers.{
  Fd, fd_eq, fd_eq_instance, Socket, peer, client_connected, client_disconnected, Network, network,
}
use buildat.Network.Module.{
  done, threw, Received, closed, enter, create_socket, restore_peers, on_continue, on_listen_event,
  on_incoming_data, handle_active_socket,
}
use buildat.Network.Invariant.{IsNetwork, handle_active_socket-IsNetwork, on_incoming_data-closed}
use mathlib.Core.List.{append-nil}
use buildat.Packet.Registry.{bytes, packet_stream, outgoing_set}
use buildat.Packet.RoundTrip.{packet_stream-IsSender}
use buildat.Packet.RoundTrip.{IsMessage, IsSynced, Fits, send_all, packet_stream-IsSynced}
use buildat.Network.Stream.{receive_all, received_from, receive_all-send_all}
use buildat.Network.Reload.{reload-on_listen_event}

abbrev listening : Socket
listening = record { fd = some 3; remote_address = [] }

abbrev client : Socket
client = record { fd = some 4; remote_address = 49 ∷ [] }

abbrev other : Socket
other = record { fd = some 5; remote_address = 50 ∷ [] }

empty-IsNetwork : IsNetwork (network listening)
unfolding network lookup
empty-IsNetwork = record { held = λ i p e. absurd cc; led = λ fd i e. absurd cc }

abbrev connected : Network
connected = (handle_active_socket client closed (some 3) (network listening)).next

room : (network listening).next_peer_id + 1 < 2 ^ 64
unfolding network
room = omega arith

fresh : lookup client.fd (network listening).peers_by_socket ≡ none
unfolding network lookup
fresh = refl

handle_active_socket-IsNetwork_example : IsNetwork connected
handle_active_socket-IsNetwork_example =
    handle_active_socket-IsNetwork client closed (some 3) (network listening) empty-IsNetwork room
      fresh

client_fd : lookup (some 4) connected.peers_by_socket ≡ some 1
unfolding handle_active_socket on_listen_event enter network lookup insert
client_fd = refl

client-peer : lookup 1 connected.peers ≡ some (peer 1 client)
unfolding handle_active_socket on_listen_event enter network lookup insert
client-peer = refl

on_incoming_data-closed_example :
    let h = on_incoming_data (some 4) closed connected in
    (h.outcome ≡ done)
    × (h.events
        ≡ client_disconnected (record { id = 1; address = (peer 1 client).socket.remote_address })
          ∷ [])
    × ((j : ℕ) → lookup j h.next.peers ≡ (if 1 == j then none else lookup j connected.peers))
    × ((fd' : Fd)
        → lookup fd' h.next.peers_by_socket
          ≡ (if fd_eq (some 4) fd' then none else lookup fd' connected.peers_by_socket))
on_incoming_data-closed_example =
    on_incoming_data-closed (some 4) connected 1 (peer 1 client)
      handle_active_socket-IsNetwork_example client_fd client-peer

-- The peer 1 with the descriptor 4 is restored.
abbrev infos : Fd × List (ℕ × Fd)
infos = (some 3, (1, some 4) ∷ [])

abbrev address : Fd → Bytes
address fd = 49 ∷ []

abbrev restored : Network
restored = on_continue address infos (network listening)

restored_peer : lookup 1 restored.peers ≡ some (peer 1 client)
unfolding on_continue restore_peers create_socket enter network lookup insert
restored_peer = refl

restored_fd : lookup (peer 1 client).socket.fd restored.peers_by_socket ≡ some 1
unfolding on_continue restore_peers create_socket enter network lookup insert peer
restored_fd = refl

apart : other.fd ≢ (peer 1 client).socket.fd
unfolding peer
apart e = ground arith

reload-on_listen_event_example :
    let h = on_listen_event other restored in
    (lookup 1 h.next.peers ≡ some (peer 1 other))
    × (h.events ≡ client_connected (record { id = 1; address = other.remote_address }) ∷ [])
    × ((received : Received)
        → (on_incoming_data (peer 1 client).socket.fd received h.next).outcome ≡ threw)
reload-on_listen_event_example =
    reload-on_listen_event address infos listening other (peer 1 client) restored_peer restored_fd
      apart

abbrev chat : Bytes
chat = bytes "chat"

abbrev series : List (Bytes × Bytes)
series = (chat, 104 ∷ 105 ∷ []) ∷ []

chat-IsMessage : IsMessage chat (104 ∷ 105 ∷ [])
chat-IsMessage = record { plain = λ e. cc; short_name = omega arith; short_payload = omega arith }

series-Fits : Fits series packet_stream
unfolding packet_stream outgoing_set
series-Fits = (chat-IsMessage, inr (omega arith), tt)

nothing_waits : (peer 1 client).socket_buffer ≡ []
unfolding peer
nothing_waits = refl

in_step : IsSynced packet_stream (peer 1 client).packet_stream.incoming
unfolding peer
in_step = packet_stream-IsSynced

receive_all-send_all_example :
    receive_all (some 4) ((send_all series packet_stream).1 ∷ []) connected
    ≡ map (received_from 1) series
receive_all-send_all_example =
    receive_all-send_all series ((send_all series packet_stream).1 ∷ []) (some 4) connected 1
      (peer 1 client) packet_stream handle_active_socket-IsNetwork_example client_fd client-peer
      nothing_waits packet_stream-IsSender in_step series-Fits
      (append-nil ((send_all series packet_stream).1))
