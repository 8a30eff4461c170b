-- ===== src/Examples/Connections.antt =====
-- The online handlers on a few bodies.
use raknet_rs.Prelude.{ℕ, ◌≡◌, true, false, List, [], ◌∷◌, replicate}
use raknet_rs.Packet.Addr.{v4}
use raknet_rs.Packet.Unconnected
use raknet_rs.Packet.Body.{
  FrameBody, connected_ping, connected_pong, connection_request, connection_request_accepted,
  new_incoming_connection, user,
}
use raknet_rs.Handshake.Server.{Peer}
use raknet_rs.Handshake.Online.{Link}
use raknet_rs.Handshake.Online.Server
use raknet_rs.Handshake.Online.Run.{serve, serve-contents}
use raknet_rs.Handshake.Online.Answers.{Sends, serve-Sends}

abbrev idle : Link
idle = record { unconnected = []; frame_body = [] }

abbrev peer : Peer
peer = record { guid = 2; addr = v4 1 2; mtu = 1400 }

abbrev early_data : List (ℕ × FrameBody)
early_data =
    (0, user (1 ∷ []))
    ∷ (1, connection_request 2 0 true)
    ∷ (2, connection_request 2 0 false)
    ∷ (3, user (2 ∷ []))
    ∷ []

serve-contents_example : (serve early_data (Server.handle_online 7 peer idle)).0 ≡ (2 ∷ []) ∷ []
serve-contents_example = serve-contents early_data 7 peer idle

-- A request with encryption, one without, a ping too early, and one behind the announcement.
abbrev whole_handshake : List (ℕ × FrameBody)
whole_handshake =
    (1, connection_request 2 0 true)
    ∷ (2, connection_request 2 10 false)
    ∷ (3, connected_ping 11)
    ∷ (4, new_incoming_connection (v4 3 4) [] 12 13)
    ∷ (5, connected_ping 14)
    ∷ []

serve-Sends_example :
    Sends idle
      (Unconnected.connection_request_failed 7 ∷ [])
      (connection_request_accepted (v4 1 2) 0 (replicate 20 (v4 0 0)) 10 2
        ∷ connected_pong 14 5
        ∷ [])
      (serve whole_handshake (Server.handle_online 7 peer idle)).1.link
serve-Sends_example = serve-Sends 7 peer whole_handshake idle
