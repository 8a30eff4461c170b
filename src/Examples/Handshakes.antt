-- ===== src/Examples/Handshakes.antt =====
-- A client and a server that open a connection.
use raknet_rs.Prelude.{◌≤◌, ◌≡◌, refl, true, false, List, [], ◌∷◌, none, some, arith}
use raknet_rs.Prelude.Outcome.{ok}
use raknet_rs.State.{Poll}
use raknet_rs.Packet.Addr.{SocketAddr, v4}
use raknet_rs.Packet.Addr.Eq.{insert, remove}
use raknet_rs.Packet.Unconnected
use raknet_rs.Packet.Connected
use raknet_rs.Packet.Dispatch.{Packet, unconnected, connected}
use raknet_rs.Handshake.Transport.{Transport, Received, nothing_yet, datagram}
use raknet_rs.Handshake.Server
use raknet_rs.Handshake.Server.{
  Peer, Tables, Handler, Control, again, yield, handle, respond, new, listen, prepare, flush, round,
  round_in,
}
use raknet_rs.Handshake.Server.History.{Event, received, Opened}
use raknet_rs.Handshake.Server.Invariant.{Reaches, start, polled, connected-Opened, yield-Opened}
use raknet_rs.Handshake.Client
use raknet_rs.Handshake.Client.{request2, opened}
use raknet_rs.Handshake.Client.Agreement.{handshake}
use raknet_rs.Examples.Caches.{by_addr}

abbrev server_config : Server.Config
server_config = record {
  sever_guid = 1;
  advertisement = [];
  min_mtu = 500;
  max_mtu = 1300;
  support_version = 9 ∷ 11 ∷ [];
  max_pending = 2;
}

abbrev client_config : Client.Config
client_config = record { mtu = 1400; client_guid = 2; protocol_version = 11 }

abbrev client_addr : SocketAddr
client_addr = v4 1 2

abbrev server_addr : SocketAddr
server_addr = v4 3 4

abbrev no_peers : Tables
no_peers = record { pending = λ a. none; connected = λ a. none }

handshake_example :
    let q₁ = Unconnected.open_connection_request1 11 1400 in
    (r₁ q₂ r₂ : Unconnected.Packet) × (t₁ t₂ : Tables) × (handle server_config
        (unconnected q₁)
        client_addr
        no_peers
      ≡ ok (respond r₁, t₁))
    × (request2 client_config server_addr (unconnected r₁) server_addr ≡ some q₂)
    × (handle server_config (unconnected q₂) client_addr t₁ ≡ ok (respond r₂, t₂))
    × (t₂.connected client_addr ≡ some (record { guid = 2; addr = client_addr; mtu = 1300 }))
    × (opened client_config server_addr (unconnected r₂) server_addr
        ≡ some (record { guid = 1; addr = server_addr; mtu = 1400 }))
handshake_example =
    handshake server_config client_config server_addr client_addr no_peers refl (omega arith) refl

-- A frame that is always ready, with what it is to receive.
abbrev receive : List Received → Received × List Received
receive [] = (nothing_yet, [])
receive (r ∷ rs) = (r, rs)

abbrev script : Transport (List Received)
script = record {
  poll_ready = λ rs. (Poll.done, rs);
  start_send = λ p a rs. (true, rs);
  poll_flush = λ rs. (Poll.done, rs);
  poll_next = receive;
}

abbrev first_request : Packet
first_request = unconnected (Unconnected.open_connection_request1 11 1400)

abbrev second_request : Packet
second_request = unconnected (Unconnected.open_connection_request2 server_addr 1300 2)

abbrev ping : Packet
ping = connected (Connected.ack [])

abbrev in_state : Server.OfflineState → List Received → Tables → Handler (List Received)
in_state s rs t = record { frame = rs; config = server_config; tables = t; state = s }

abbrev requested : Tables
requested = record no_peers { pending = insert client_addr 11 (λ a. none) }

abbrev client : Peer
client = record { guid = 2; addr = client_addr; mtu = 1300 }

abbrev joined : Tables
joined = record {
  pending = remove client_addr (insert client_addr 11 (λ a. none));
  connected = insert client_addr client (λ a. none);
}

abbrev reply1 : Server.OfflineState
reply1 =
    Server.sending_prepare (some (Unconnected.open_connection_reply1 1 false 1300, client_addr))

abbrev reply2 : Server.OfflineState
reply2 =
    Server.sending_prepare
      (some (Unconnected.open_connection_reply2 1 client_addr 1300 false, client_addr))

abbrev heard_first : List Event
heard_first = received first_request client_addr ∷ []

abbrev heard_both : List Event
heard_both = received second_request client_addr ∷ heard_first

-- What is still to come.
abbrev second_and_ping : List Received
second_and_ping = datagram second_request client_addr ∷ datagram ping client_addr ∷ []

abbrev only_ping : List Received
only_ping = datagram ping client_addr ∷ []

abbrev listening : List Received → Tables → Handler (List Received)
listening = in_state Server.listening

asked : Reaches script server_config (listening second_and_ping requested) heard_first
unfolding new round_in listen prepare flush handle
asked =
    polled (in_state Server.sending_flush second_and_ping requested)
      (listening second_and_ping requested) heard_first again
      (polled (in_state reply1 second_and_ping requested)
        (in_state Server.sending_flush second_and_ping requested) heard_first again
        (polled (listening (datagram first_request client_addr ∷ second_and_ping) no_peers)
          (in_state reply1 second_and_ping requested) [] again
          (start (datagram first_request client_addr ∷ second_and_ping)
            (listening (datagram first_request client_addr ∷ second_and_ping) no_peers) refl)
          refl)
        refl)
      refl

together : Reaches script server_config (listening only_ping joined) heard_both
unfolding round_in listen prepare flush handle
together =
    polled (in_state Server.sending_flush only_ping joined) (listening only_ping joined) heard_both
      again
      (polled (in_state reply2 only_ping joined) (in_state Server.sending_flush only_ping joined)
        heard_both again
        (polled (listening second_and_ping requested) (in_state reply2 only_ping joined) heard_first
          again asked refl)
        refl)
      refl

connected-Opened_example :
    Opened server_config client_addr client heard_both
    × (client.addr ≡ client_addr)
    × ((500 ≤ client.mtu) × (client.mtu ≤ 1300))
connected-Opened_example =
    connected-Opened script server_config (listening only_ping joined) heard_both client_addr client
      together refl

yield-Opened_example :
    Opened server_config client_addr client (received ping client_addr ∷ heard_both)
unfolding round_in listen handle
yield-Opened_example =
    yield-Opened script server_config (listening only_ping joined) (listening [] joined) heard_both
      (Connected.ack []) client together refl
