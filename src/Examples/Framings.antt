-- ===== src/Examples/Framings.antt =====
-- Datagrams of a socket, and a packet that is sent.
use raknet_rs.Prelude.{ℕ, ◌+◌, ◌≡◌, refl, List, [], ◌∷◌, length, arith}
use raknet_rs.Prelude.Outcome.{ok}
use raknet_rs.Packet.Addr.{SocketAddr, v4}
use raknet_rs.Packet.Unconnected
use raknet_rs.Packet.Dispatch
use raknet_rs.Packet.Dispatch.{Packet, unconnected}
use raknet_rs.Codec.Framed
use raknet_rs.Codec.Framed.{
  Event, received, failure, Sending, sent, Framed, poll_flush_0, start_send, wrote,
}
use raknet_rs.Codec.Framed.Packets.{Idle, polls, packets, Clean, polls-packets, start_send-Alone}
use raknet_rs.Examples.Bytes.{bytes}

abbrev opened : Framed ℕ
opened = Framed.new 0

abbrev sender : SocketAddr
sender = v4 1 19132

abbrev reply : Packet
reply = unconnected (Unconnected.already_connected 99)

-- A packet, a byte that begins none, a failure, and the packet again.
abbrev events : List Event
events =
    received (Unconnected.write (Unconnected.already_connected 99)) sender
    ∷ received (255 ∷ []) sender
    ∷ failure
    ∷ received (Unconnected.write (Unconnected.already_connected 99)) sender
    ∷ []

new-Idle : Idle opened
new-Idle = record { readable = refl; rd = refl }

polls-packets_example : polls 5 events opened ≡ packets events
polls-packets_example = polls-packets 5 events opened new-Idle (omega arith)

-- A socket that counts the bytes that it sends.
abbrev count : List ℕ → SocketAddr → ℕ → Sending × ℕ
count buf addr n = (sent (length buf), n + length buf)

new-Clean : Clean opened
new-Clean e = refl

start_send-Alone_example :
    (f : Framed ℕ) × (start_send reply sender opened ≡ ok f)
    × Clean f
    × (poll_flush_0 count f
        ≡ wrote f (count (Unconnected.write (Unconnected.already_connected 99)) sender 0))
unfolding poll_flush_0 Dispatch.write
start_send-Alone_example =
    start_send-Alone count opened opened reply sender
      (Unconnected.write (Unconnected.already_connected 99)) new-Clean refl refl
