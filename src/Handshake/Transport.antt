-- ===== src/Handshake/Transport.antt =====
-- What the handlers use of the frame below them:
-- `Stream<Item = (Packet, SocketAddr)> + Sink<(unconnected::Packet, SocketAddr), Error = io::Error>`.
use raknet_rs.Prelude.{Bool}
use raknet_rs.State.{Poll}
use raknet_rs.Packet.Addr.{SocketAddr}
use raknet_rs.Packet.Unconnected
use raknet_rs.Packet.Dispatch.{Packet}

-- `Poll<Option<(Packet, SocketAddr)>>`
pub data Received : Type 0 where
  nothing_yet : Received
  closed : Received
  datagram : Packet → SocketAddr → Received

-- `start_send` answers whether it has taken the packet.
pub record Transport (F : Type 0) : Type 0 where
  pub poll_ready : F → Poll × F
  pub start_send : Unconnected.Packet → SocketAddr → F → Bool × F
  pub poll_flush : F → Poll × F
  pub poll_next : F → Received × F
