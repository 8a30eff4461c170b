-- ===== src/Handshake/Online/Client.antt =====
-- `OnlineHandler` of src/client/handler/online.rs.
use raknet_rs.Prelude.{ℕ, false, List, Option, none, some}
use raknet_rs.Packet.Addr.{SocketAddr}
use raknet_rs.Packet.Body.{
  FrameBody, connected_ping, connection_request, connection_request_accepted,
  new_incoming_connection, detect_lost_connections, user,
}
use raknet_rs.Handshake.Online.{Link, send_frame_body}

pub data State : Type 0 where
  wait_conn_res : State
  connected : State

pub record OnlineHandler : Type 0 where
  pub state : State
  pub addr : SocketAddr
  pub link : Link

-- `handle_online`, which sends the connection request.
abbrev pub handle_online : ℕ → SocketAddr → ℕ → Link → OnlineHandler
handle_online now addr client_guid link = record {
  state = wait_conn_res;
  addr = addr;
  link = send_frame_body (connection_request client_guid now false) link;
}

-- A round of `poll_next` on a body: the data that it returns, if it does.
unfoldable pub poll_body : State → ℕ → FrameBody → OnlineHandler → Option (List ℕ) × OnlineHandler
poll_body wait_conn_res now (connection_request_accepted a i system_addresses t accepted_timestamp)
      h =
    (
      none,
      record h {
        link =
            send_frame_body (new_incoming_connection h.addr system_addresses now accepted_timestamp)
              h.link;
        state = connected;
      },
    )
poll_body wait_conn_res now (user content) h = (some content, h)
poll_body wait_conn_res now body h = (none, h)
poll_body connected now detect_lost_connections h =
    (none, record h { link = send_frame_body (connected_ping now) h.link })
poll_body connected now (user content) h = (some content, h)
poll_body connected now body h = (none, h)
