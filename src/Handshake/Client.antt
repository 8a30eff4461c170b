-- ===== src/Handshake/Client.antt =====
-- `OfflineHandler` and `FilterConnected` of src/client/handler/offline.rs. The role is for logs only.
pub mod Agreement
use raknet_rs.Prelude.{ℕ, Bool, true, false, List, if◌then◌else◌, Option, none, some}
use raknet_rs.Prelude.Outcome.{Outcome, ok, panic}
use raknet_rs.State.{Poll}
use raknet_rs.Packet.Addr.{SocketAddr}
use raknet_rs.Packet.Addr.Eq.{same}
use raknet_rs.Packet.Unconnected
use raknet_rs.Packet.Connected
use raknet_rs.Packet.Dispatch.{Packet, unconnected, connected}
use raknet_rs.Handshake.Transport.{Transport, Received, nothing_yet, closed, datagram}
use raknet_rs.Handshake.Server.{Peer}

pub record Config : Type 0 where
  pub mtu : ℕ
  pub client_guid : ℕ
  pub protocol_version : ℕ

pub data State : Type 0 where
  send_open_conn_req1 : Unconnected.Packet → State
  send_open_conn_req1_flush : State
  wait_open_conn_reply1 : State
  send_open_conn_req2 : Unconnected.Packet → State
  send_open_conn_req2_flush : State
  wait_open_conn_reply2 : State

pub record Handler (F : Type 0) : Type 0 where
  pub frame : Option F
  pub state : State
  pub server_addr : SocketAddr
  pub config : Config

-- `FilterConnected`
pub record Filtered (F : Type 0) : Type 0 where
  pub frame : F
  pub server_addr : SocketAddr

-- What a round of `poll` returns, or that the loop goes on.
pub data Control (F : Type 0) : Type 0 where
  again : Control F
  wait : Control F
  failed : Control F
  done : Filtered F → Peer → Control F

-- `new`
unfoldable pub new : {F : Type 0} → F → SocketAddr → Config → Handler F
new frame server_addr config = record {
  frame = some frame;
  state =
      send_open_conn_req1 (Unconnected.open_connection_request1 config.protocol_version config.mtu);
  server_addr = server_addr;
  config = config;
}

-- The answer to a first reply from the server: the `mtu` is that of the reply.
unfoldable pub request2 : Config → SocketAddr → Packet → SocketAddr → Option Unconnected.Packet
request2 c server_addr (unconnected (Unconnected.open_connection_reply1 server_guid e mtu)) addr =
    if same addr server_addr
    then some (Unconnected.open_connection_request2 server_addr mtu c.client_guid)
    else none
request2 c server_addr p addr = none

-- The peer after a second reply from the server: the `mtu` is that of the configuration.
unfoldable pub opened : Config → SocketAddr → Packet → SocketAddr → Option Peer
opened c server_addr
      (unconnected (Unconnected.open_connection_reply2 server_guid client_address mtu e)) addr =
    if same addr server_addr
    then some (record { guid = server_guid; addr = server_addr; mtu = c.mtu })
    else none
opened c server_addr p addr = none

module _ {F : Type 0} (io : Transport F) where
  -- `ready!(..)?` in a frame, and on to the state `next`.
  abbrev pub await : State → Handler F → Poll × F → Control F × Handler F
  await next h (Poll.pending, frame) = (wait, record h { frame = some frame })
  await next h (Poll.failed, frame) = (failed, record h { frame = some frame })
  await next h (Poll.done, frame) = (again, record h { frame = some frame; state = next })

  abbrev pub sent : State → Handler F → Bool × F → Control F × Handler F
  sent next h (true, frame) = (again, record h { frame = some frame; state = next })
  sent next h (false, frame) = (failed, record h { frame = some frame })

  -- A frame that is ready takes the packet.
  abbrev pub send : Unconnected.Packet → State → Handler F → Poll × F → Control F × Handler F
  send pack next h (Poll.pending, frame) = (wait, record h { frame = some frame })
  send pack next h (Poll.failed, frame) = (failed, record h { frame = some frame })
  send pack next h (Poll.done, frame) = sent next h (io.start_send pack h.server_addr frame)

  -- The end of the stream is the error `ConnectionReset`.
  abbrev pub next_request : Handler F → F → Option Unconnected.Packet → Control F × Handler F
  next_request h frame none = (again, record h { frame = some frame })
  next_request h frame (some pack) =
      (again, record h { frame = some frame; state = send_open_conn_req2 pack })

  abbrev pub reply1 : Handler F → Received × F → Control F × Handler F
  reply1 h (nothing_yet, frame) = (wait, record h { frame = some frame })
  reply1 h (closed, frame) = (failed, record h { frame = some frame })
  reply1 h (datagram p addr, frame) = next_request h frame (request2 h.config h.server_addr p addr)

  abbrev pub finish : Handler F → F → Option Peer → Control F × Handler F
  finish h frame none = (again, record h { frame = some frame })
  finish h frame (some peer) =
      (done (record { frame = frame; server_addr = h.server_addr }) peer, record h { frame = none })

  abbrev pub reply2 : Handler F → Received × F → Control F × Handler F
  reply2 h (nothing_yet, frame) = (wait, record h { frame = some frame })
  reply2 h (closed, frame) = (failed, record h { frame = some frame })
  reply2 h (datagram p addr, frame) = finish h frame (opened h.config h.server_addr p addr)

  -- A round in a state, in a frame that is there.
  unfoldable pub round_in : State → F → Handler F → Control F × Handler F
  round_in (send_open_conn_req1 pack) frame h =
      send pack send_open_conn_req1_flush h (io.poll_ready frame)
  round_in send_open_conn_req1_flush frame h = await wait_open_conn_reply1 h (io.poll_flush frame)
  round_in wait_open_conn_reply1 frame h = reply1 h (io.poll_next frame)
  round_in (send_open_conn_req2 pack) frame h =
      send pack send_open_conn_req2_flush h (io.poll_ready frame)
  round_in send_open_conn_req2_flush frame h = await wait_open_conn_reply2 h (io.poll_flush frame)
  round_in wait_open_conn_reply2 frame h = reply2 h (io.poll_next frame)

  abbrev pub in_frame : Option F → Handler F → Outcome (Control F × Handler F)
  in_frame none h = panic
  in_frame (some frame) h = ok (round_in h.state frame h)

  -- One round of the loop of `poll`; a handler that is done has no frame to unwrap.
  abbrev pub round : Handler F → Outcome (Control F × Handler F)
  round h = in_frame h.frame h

-- What a round of `FilterConnected::poll_next` comes to.
pub data Filter : Type 0 where
  skip : Filter
  not_yet : Filter
  end : Filter
  item : Connected.Packet → Filter

-- One round of `FilterConnected::poll_next`, on what the frame has answered.
unfoldable pub filter : {F : Type 0} → Filtered F → Received × F → Filter × Filtered F
filter f (nothing_yet, frame) = (not_yet, record f { frame = frame })
filter f (closed, frame) = (end, record f { frame = frame })
filter f (datagram (connected p) addr, frame) =
    (if same addr f.server_addr then item p else skip, record f { frame = frame })
filter f (datagram (unconnected p) addr, frame) = (skip, record f { frame = frame })
