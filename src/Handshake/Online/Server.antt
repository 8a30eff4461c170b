-- ===== src/Handshake/Online/Server.antt =====
-- `OnlineHandler` of src/server/handler/online.rs.
use raknet_rs.Prelude.{ℕ, List, if◌then◌else◌, Option, none, some, replicate}
use raknet_rs.Packet.Addr.{SocketAddr, v4, v6}
use raknet_rs.Packet.Unconnected
use raknet_rs.Packet.Body.{
  FrameBody, connected_ping, connected_pong, connection_request, connection_request_accepted,
  new_incoming_connection, user,
}
use raknet_rs.Handshake.Server.{Peer}
use raknet_rs.Handshake.Online.{Link, send_unconnected, send_frame_body}

pub data HandshakeState : Type 0 where
  wait_conn_request : HandshakeState
  wait_new_incoming_conn : HandshakeState
  connected : HandshakeState

pub record OnlineHandler : Type 0 where
  pub guid : ℕ
  pub peer : Peer
  pub state : HandshakeState
  pub link : Link

-- `handle_online`
abbrev pub handle_online : ℕ → Peer → Link → OnlineHandler
handle_online guid peer link = record {
  guid = guid;
  peer = peer;
  state = wait_conn_request;
  link = link;
}

abbrev pub system_addr : SocketAddr → SocketAddr
system_addr (v4 ip port) = v4 0 0
system_addr (v6 ip port flow_info scope) = v6 0 0 0 0

-- A round of `poll_next` on a body: the data that it returns, if it does.
unfoldable pub poll_body :
    HandshakeState → ℕ → FrameBody → OnlineHandler → Option (List ℕ) × OnlineHandler
poll_body wait_conn_request now (connection_request client_guid request_timestamp use_encryption)
      h =
    if use_encryption
    then (
      none,
      record h { link = send_unconnected (Unconnected.connection_request_failed h.guid) h.link },
    )
    else (
      none,
      record h {
        link =
            send_frame_body
              (connection_request_accepted h.peer.addr 0 (replicate 20 (system_addr h.peer.addr))
                request_timestamp now)
              h.link;
        state = wait_new_incoming_conn;
      },
    )
poll_body wait_conn_request now body h = (none, h)
poll_body wait_new_incoming_conn now (new_incoming_connection server_address addrs t u) h =
    (none, record h { state = connected })
poll_body wait_new_incoming_conn now (user content) h = (some content, h)
poll_body wait_new_incoming_conn now body h = (none, h)
poll_body connected now (connected_ping client_timestamp) h =
    (none, record h { link = send_frame_body (connected_pong client_timestamp now) h.link })
poll_body connected now (user content) h = (some content, h)
poll_body connected now body h = (none, h)
