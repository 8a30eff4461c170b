-- ===== src/Handshake/Online/Run.antt =====
-- What the online handlers make of a sequence of bodies, each with the time at which it is read.
use raknet_rs.Prelude.{ℕ, ◌≡◌, refl, true, false, List, [], ◌∷◌, Option, none, some}
use raknet_rs.Packet.Body.{
  FrameBody, connected_ping, connected_pong, connection_request, connection_request_accepted,
  new_incoming_connection, disconnect_notification, detect_lost_connections, user,
}
use raknet_rs.Handshake.Server.{Peer}
use raknet_rs.Handshake.Online.{Link}
use raknet_rs.Handshake.Online.Server
use raknet_rs.Handshake.Online.Client

-- `None` is not returned to the caller: the loop goes on.
abbrev pub returned : Option (List ℕ) → List (List ℕ) → List (List ℕ)
returned none xs = xs
returned (some x) xs = x ∷ xs

-- What the rounds of a handler return for the bodies, in order, and the handler behind them.
unfoldable pub serve :
    List (ℕ × FrameBody) → Server.OnlineHandler → List (List ℕ) × Server.OnlineHandler
serve [] h = ([], h)
serve ((now, body) ∷ rest) h =
    let (r, h') = Server.poll_body h.state now body h in
    let (rs, h'') = serve rest h' in (returned r rs, h'')

pub attend : List (ℕ × FrameBody) → Client.OnlineHandler → List (List ℕ) × Client.OnlineHandler
attend [] h = ([], h)
attend ((now, body) ∷ rest) h =
    let (r, h') = Client.poll_body h.state now body h in
    let (rs, h'') = attend rest h' in (returned r rs, h'')

-- The contents of the user's packets.
abbrev pub content_of : FrameBody → Option (List ℕ)
content_of (user content) = some content
content_of body = none

abbrev pub contents : List (ℕ × FrameBody) → List (List ℕ)
contents [] = []
contents ((now, body) ∷ rest) = returned (content_of body) (contents rest)

-- What follows the first connection request without encryption.
abbrev pub after_request : List (ℕ × FrameBody) → List (ℕ × FrameBody)
after_request [] = []
after_request ((now, connection_request g t false) ∷ rest) = rest
after_request ((now, body) ∷ rest) = after_request rest

-- A handler whose peer has asked for the connection.
abbrev Asked : Server.HandshakeState → Type 0
Asked Server.wait_conn_request = ⊥
Asked st = Unit

poll-Asked :
    (st : Server.HandshakeState) (now : ℕ) (body : FrameBody) (h : Server.OnlineHandler)
    → h.state ≡ st
    → Asked st
    → ((Server.poll_body st now body h).0 ≡ content_of body)
      × Asked (Server.poll_body st now body h).1.state
unfolding Server.poll_body
poll-Asked Server.wait_conn_request now body h e k = absurd k
poll-Asked Server.wait_new_incoming_conn now (connected_ping t) h e k = (refl, rw e tt)
poll-Asked Server.wait_new_incoming_conn now (connected_pong t u) h e k = (refl, rw e tt)
poll-Asked Server.wait_new_incoming_conn now (connection_request g t true) h e k = (refl, rw e tt)
poll-Asked Server.wait_new_incoming_conn now (connection_request g t false) h e k = (refl, rw e tt)
poll-Asked Server.wait_new_incoming_conn now (connection_request_accepted a i addrs t u) h e k =
    (refl, rw e tt)
poll-Asked Server.wait_new_incoming_conn now (new_incoming_connection a addrs t u) h e k =
    (refl, tt)
poll-Asked Server.wait_new_incoming_conn now disconnect_notification h e k = (refl, rw e tt)
poll-Asked Server.wait_new_incoming_conn now detect_lost_connections h e k = (refl, rw e tt)
poll-Asked Server.wait_new_incoming_conn now (user content) h e k = (refl, rw e tt)
poll-Asked Server.connected now (connected_ping t) h e k = (refl, rw e tt)
poll-Asked Server.connected now (connected_pong t u) h e k = (refl, rw e tt)
poll-Asked Server.connected now (connection_request g t true) h e k = (refl, rw e tt)
poll-Asked Server.connected now (connection_request g t false) h e k = (refl, rw e tt)
poll-Asked Server.connected now (connection_request_accepted a i addrs t u) h e k = (refl, rw e tt)
poll-Asked Server.connected now (new_incoming_connection a addrs t u) h e k = (refl, rw e tt)
poll-Asked Server.connected now disconnect_notification h e k = (refl, rw e tt)
poll-Asked Server.connected now detect_lost_connections h e k = (refl, rw e tt)
poll-Asked Server.connected now (user content) h e k = (refl, rw e tt)

serve-Asked :
    (bodies : List (ℕ × FrameBody)) (h : Server.OnlineHandler)
    → Asked h.state
    → (serve bodies h).0 ≡ contents bodies
unfolding serve
serve-Asked [] h a = refl
serve-Asked ((now, body) ∷ rest) h a =
    let (e, k) = poll-Asked h.state now body h refl a in
    rw (e, serve-Asked rest (Server.poll_body h.state now body h).1 k) refl

-- A server hands up the user's packets that follow the first connection request without encryption, all
-- of them in order, and nothing else.
pub serve-contents :
    (bodies : List (ℕ × FrameBody)) (guid : ℕ) (peer : Peer) (link : Link)
    → (serve bodies (Server.handle_online guid peer link)).0 ≡ contents (after_request bodies)
unfolding serve Server.poll_body
serve-contents [] guid peer link = refl
serve-contents ((now, connected_ping t) ∷ rest) guid peer link = serve-contents rest guid peer _
serve-contents ((now, connected_pong t u) ∷ rest) guid peer link = serve-contents rest guid peer _
serve-contents ((now, connection_request g t true) ∷ rest) guid peer link =
    serve-contents rest guid peer _
serve-contents ((now, connection_request g t false) ∷ rest) guid peer link = serve-Asked rest _ tt
serve-contents ((now, connection_request_accepted a i addrs t u) ∷ rest) guid peer link =
    serve-contents rest guid peer _
serve-contents ((now, new_incoming_connection a addrs t u) ∷ rest) guid peer link =
    serve-contents rest guid peer _
serve-contents ((now, disconnect_notification) ∷ rest) guid peer link =
    serve-contents rest guid peer _
serve-contents ((now, detect_lost_connections) ∷ rest) guid peer link =
    serve-contents rest guid peer _
serve-contents ((now, user content) ∷ rest) guid peer link = serve-contents rest guid peer _

poll-returns :
    (st : Client.State) (now : ℕ) (body : FrameBody) (h : Client.OnlineHandler)
    → (Client.poll_body st now body h).0 ≡ content_of body
unfolding Client.poll_body
poll-returns Client.wait_conn_res now (connected_ping t) h = refl
poll-returns Client.wait_conn_res now (connected_pong t u) h = refl
poll-returns Client.wait_conn_res now (connection_request g t e) h = refl
poll-returns Client.wait_conn_res now (connection_request_accepted a i addrs t u) h = refl
poll-returns Client.wait_conn_res now (new_incoming_connection a addrs t u) h = refl
poll-returns Client.wait_conn_res now disconnect_notification h = refl
poll-returns Client.wait_conn_res now detect_lost_connections h = refl
poll-returns Client.wait_conn_res now (user content) h = refl
poll-returns Client.connected now (connected_ping t) h = refl
poll-returns Client.connected now (connected_pong t u) h = refl
poll-returns Client.connected now (connection_request g t e) h = refl
poll-returns Client.connected now (connection_request_accepted a i addrs t u) h = refl
poll-returns Client.connected now (new_incoming_connection a addrs t u) h = refl
poll-returns Client.connected now disconnect_notification h = refl
poll-returns Client.connected now detect_lost_connections h = refl
poll-returns Client.connected now (user content) h = refl

-- A client hands up all of the user's packets in order, and nothing else.
pub attend-contents :
    (bodies : List (ℕ × FrameBody)) (h : Client.OnlineHandler)
    → (attend bodies h).0 ≡ contents bodies
unfolding attend
attend-contents [] h = refl
attend-contents ((now, body) ∷ rest) h =
    rw
      (
        poll-returns h.state now body h,
        attend-contents rest (Client.poll_body h.state now body h).1,
      )
      refl
