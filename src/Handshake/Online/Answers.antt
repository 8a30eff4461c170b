-- ===== src/Handshake/Online/Answers.antt =====
-- What a server answers to a sequence of bodies, by the two queues of its link.
use mathlib.Core.List.{append_assoc, append-nil}
use raknet_rs.Prelude.{ℕ, ◌≡◌, sym, ◌∙◌, true, false, List, [], ◌∷◌, ◌++◌, replicate}
use raknet_rs.Packet.Unconnected
use raknet_rs.Packet.Body.{
  FrameBody, connected_ping, connected_pong, connection_request, connection_request_accepted,
  new_incoming_connection, disconnect_notification, detect_lost_connections, user,
}
use raknet_rs.Handshake.Server.{Peer}
use raknet_rs.Handshake.Online.{Link, send_unconnected, send_frame_body}
use raknet_rs.Handshake.Online.Server
use raknet_rs.Handshake.Online.Run.{serve, after_request}

-- What comes before the first connection request without encryption.
abbrev pub before_request : List (ℕ × FrameBody) → List (ℕ × FrameBody)
before_request [] = []
before_request ((now, connection_request g t false) ∷ rest) = []
before_request (x ∷ rest) = x ∷ before_request rest

-- What follows the first announcement of the client.
abbrev pub after_announcement : List (ℕ × FrameBody) → List (ℕ × FrameBody)
after_announcement [] = []
after_announcement ((now, new_incoming_connection a addrs t u) ∷ rest) = rest
after_announcement (x ∷ rest) = after_announcement rest

-- One refusal for each request with encryption.
abbrev pub refusals : ℕ → List (ℕ × FrameBody) → List Unconnected.Packet
refusals guid [] = []
refusals guid ((now, connection_request g t true) ∷ rest) =
    Unconnected.connection_request_failed guid ∷ refusals guid rest
refusals guid (x ∷ rest) = refusals guid rest

-- The acceptance of the first request without encryption.
abbrev pub acceptance : Peer → List (ℕ × FrameBody) → List FrameBody
acceptance peer [] = []
acceptance peer ((now, connection_request g t false) ∷ rest) =
    connection_request_accepted peer.addr 0 (replicate 20 (Server.system_addr peer.addr)) t now ∷ []
acceptance peer (x ∷ rest) = acceptance peer rest

-- One pong for each ping, with the times of both.
abbrev pub pongs : List (ℕ × FrameBody) → List FrameBody
pongs [] = []
pongs ((now, connected_ping t) ∷ rest) = connected_pong t now ∷ pongs rest
pongs (x ∷ rest) = pongs rest

-- What is new in the queues of a link.
abbrev pub Sends : Link → List Unconnected.Packet → List FrameBody → Link → Type 0
Sends l packets bodies l' =
    (l'.unconnected ≡ l.unconnected ++ packets) × (l'.frame_body ≡ l.frame_body ++ bodies)

Sends-none : (l : Link) → Sends l [] [] l
Sends-none l = (sym (append-nil l.unconnected), sym (append-nil l.frame_body))

-- A body that is sent comes before what is sent behind it.
Sends-frame_body :
    (body : FrameBody) (bodies : List FrameBody) (packets : List Unconnected.Packet) (l l' : Link)
    → Sends (send_frame_body body l) packets bodies l'
    → Sends l packets (body ∷ bodies) l'
Sends-frame_body body bodies packets l l' (u, f) =
    (u, f ∙ append_assoc l.frame_body (body ∷ []) bodies)

Sends-unconnected :
    (p : Unconnected.Packet) (packets : List Unconnected.Packet) (bodies : List FrameBody)
    (l l' : Link)
    → Sends (send_unconnected p l) packets bodies l'
    → Sends l (p ∷ packets) bodies l'
Sends-unconnected p packets bodies l l' (u, f) =
    (u ∙ append_assoc l.unconnected (p ∷ []) packets, f)

module _ (guid : ℕ) (peer : Peer) where
  abbrev handler : Server.HandshakeState → Link → Server.OnlineHandler
  handler state link = record { guid = guid; peer = peer; state = state; link = link }

  connected-Sends :
      (bodies : List (ℕ × FrameBody)) (link : Link)
      → Sends link [] (pongs bodies) (serve bodies (handler Server.connected link)).1.link
  unfolding serve Server.poll_body
  connected-Sends [] link = Sends-none link
  connected-Sends ((now, connected_ping t) ∷ rest) link =
      Sends-frame_body (connected_pong t now) (pongs rest) [] link _
        (connected-Sends rest (send_frame_body (connected_pong t now) link))
  connected-Sends ((now, connected_pong t u) ∷ rest) link = connected-Sends rest link
  connected-Sends ((now, connection_request g t true) ∷ rest) link = connected-Sends rest link
  connected-Sends ((now, connection_request g t false) ∷ rest) link = connected-Sends rest link
  connected-Sends ((now, connection_request_accepted a i addrs t u) ∷ rest) link =
      connected-Sends rest link
  connected-Sends ((now, new_incoming_connection a addrs t u) ∷ rest) link =
      connected-Sends rest link
  connected-Sends ((now, disconnect_notification) ∷ rest) link = connected-Sends rest link
  connected-Sends ((now, detect_lost_connections) ∷ rest) link = connected-Sends rest link
  connected-Sends ((now, user content) ∷ rest) link = connected-Sends rest link

  asked-Sends :
      (bodies : List (ℕ × FrameBody)) (link : Link)
      → Sends link []
          (pongs (after_announcement bodies))
          (serve bodies (handler Server.wait_new_incoming_conn link)).1.link
  unfolding serve Server.poll_body
  asked-Sends [] link = Sends-none link
  asked-Sends ((now, connected_ping t) ∷ rest) link = asked-Sends rest link
  asked-Sends ((now, connected_pong t u) ∷ rest) link = asked-Sends rest link
  asked-Sends ((now, connection_request g t true) ∷ rest) link = asked-Sends rest link
  asked-Sends ((now, connection_request g t false) ∷ rest) link = asked-Sends rest link
  asked-Sends ((now, connection_request_accepted a i addrs t u) ∷ rest) link = asked-Sends rest link
  asked-Sends ((now, new_incoming_connection a addrs t u) ∷ rest) link = connected-Sends rest link
  asked-Sends ((now, disconnect_notification) ∷ rest) link = asked-Sends rest link
  asked-Sends ((now, detect_lost_connections) ∷ rest) link = asked-Sends rest link
  asked-Sends ((now, user content) ∷ rest) link = asked-Sends rest link

  -- Whatever bodies a server is given, and when: it refuses each connection request with encryption before
  -- the first one without, accepts that one, and answers each ping that follows the client's announcement
  -- behind it, in order, with the times of both. It puts nothing else on the queues of its link.
  pub serve-Sends :
      (bodies : List (ℕ × FrameBody)) (link : Link)
      → Sends link
          (refusals guid (before_request bodies))
          (acceptance peer bodies ++ pongs (after_announcement (after_request bodies)))
          (serve bodies (Server.handle_online guid peer link)).1.link
  unfolding serve Server.poll_body
  serve-Sends [] link = Sends-none link
  serve-Sends ((now, connected_ping t) ∷ rest) link = serve-Sends rest link
  serve-Sends ((now, connected_pong t u) ∷ rest) link = serve-Sends rest link
  serve-Sends ((now, connection_request g t true) ∷ rest) link =
      Sends-unconnected (Unconnected.connection_request_failed guid)
        (refusals guid (before_request rest)) _ link _
        (serve-Sends rest (send_unconnected (Unconnected.connection_request_failed guid) link))
  serve-Sends ((now, connection_request g t false) ∷ rest) link =
      Sends-frame_body _ (pongs (after_announcement rest)) [] link _
        (asked-Sends rest (send_frame_body _ link))
  serve-Sends ((now, connection_request_accepted a i addrs t u) ∷ rest) link = serve-Sends rest link
  serve-Sends ((now, new_incoming_connection a addrs t u) ∷ rest) link = serve-Sends rest link
  serve-Sends ((now, disconnect_notification) ∷ rest) link = serve-Sends rest link
  serve-Sends ((now, detect_lost_connections) ∷ rest) link = serve-Sends rest link
  serve-Sends ((now, user content) ∷ rest) link = serve-Sends rest link
