-- ===== src/Handshake/Client/Agreement.antt =====
-- The handshake of a client with a server, from the first request to the second reply.
use raknet_rs.Prelude.{ℕ, ◌≤◌, ◌≡◌, refl, true, false, none, some, le→ltb_false, min, max, arith}
use raknet_rs.Prelude.Outcome.{ok}
use raknet_rs.Packet.Addr.{SocketAddr}
use raknet_rs.Packet.Addr.Eq.{same_refl, insert}
use raknet_rs.Packet.Unconnected
use raknet_rs.Packet.Dispatch.{unconnected}
use raknet_rs.Prelude.Lru.{Lru}
use raknet_rs.Handshake.Server
use raknet_rs.Handshake.Server.{Peer, supports, clamp, respond, Tables, handle}
use raknet_rs.Handshake.Client
use raknet_rs.Handshake.Client.{request2, opened}

-- The `mtu` that the server replies with.
abbrev pub agreed : Server.Config → ℕ → ℕ
agreed s mtu = max s.min_mtu (min s.max_mtu mtu)

clamp-agreed :
    (s : Server.Config) (mtu : ℕ)
    → s.min_mtu ≤ s.max_mtu
    → clamp mtu s.min_mtu s.max_mtu ≡ ok (agreed s mtu)
clamp-agreed s mtu h = ground arith

module _ ⦃l : Lru SocketAddr ℕ⦄ where
  -- The second request, with the `mtu` of the reply, of a client that is pending and no peer.
  second_reply :
      (s : Server.Config) (server client : SocketAddr) (v mtu guid : ℕ) (t : Tables)
      → l.peek client t.pending ≡ some v
      → t.connected client ≡ none
      → s.min_mtu ≤ mtu
      → mtu ≤ s.max_mtu
      → (t' : Tables) × (handle s
            (unconnected (Unconnected.open_connection_request2 server mtu guid))
            client
            t
          ≡ ok (respond (Unconnected.open_connection_reply2 s.sever_guid client mtu false), t'))
        × (t'.connected client ≡ some (record { guid = guid; addr = client; mtu = mtu }))
  unfolding handle
  second_reply s server client v mtu guid t p n lo hi = (
    record {
      pending = (l.pop client t.pending).1;
      connected = insert client (record { guid = guid; addr = client; mtu = mtu }) t.connected;
    },
    rw
        (
          l.pop-old client t.pending,
          p,
          le→ltb_false mtu s.min_mtu lo,
          le→ltb_false s.max_mtu mtu hi,
          n,
        )
        refl,
    rw (same_refl client) refl,
  )

  -- A client that speaks a supported version and is no peer yet becomes one by its two requests: the
  -- server answers each, the client takes the `mtu` of the first reply over into its second request, and
  -- the server then has it for a peer with that `mtu`, the one nearest to the client's in the server's
  -- bounds. The client's own peer has the `mtu` of its configuration instead.
  pub handshake :
      (s : Server.Config) (c : Client.Config) (server client : SocketAddr) (t : Tables)
      → supports c.protocol_version s.support_version ≡ true
      → s.min_mtu ≤ s.max_mtu
      → t.connected client ≡ none
      → let q₁ = Unconnected.open_connection_request1 c.protocol_version c.mtu in
        (r₁ q₂ r₂ : Unconnected.Packet) × (t₁ t₂ : Tables) × (handle s (unconnected q₁) client t
          ≡ ok (respond r₁, t₁))
        × (request2 c server (unconnected r₁) server ≡ some q₂)
        × (handle s (unconnected q₂) client t₁ ≡ ok (respond r₂, t₂))
        × (t₂.connected client
            ≡ some (record { guid = c.client_guid; addr = client; mtu = agreed s c.mtu }))
        × (opened c server (unconnected r₂) server
            ≡ some (record { guid = s.sever_guid; addr = server; mtu = c.mtu }))
  unfolding handle request2 opened
  handshake s c server client t v k n =
      let mtu = agreed s c.mtu in
      let t₁ : Tables = record t { pending = (l.put client c.protocol_version t.pending).1 } in
      let (t₂, answered, peer) =
        second_reply s server client c.protocol_version mtu c.client_guid t₁
          (l.peek-put client c.protocol_version t.pending) n (omega arith) (omega arith) in
      (
        Unconnected.open_connection_reply1 s.sever_guid false mtu,
        Unconnected.open_connection_request2 server mtu c.client_guid,
        Unconnected.open_connection_reply2 s.sever_guid client mtu false,
        t₁,
        t₂,
        rw (v, clamp-agreed s c.mtu k) refl,
        rw (same_refl server) refl,
        answered,
        peer,
        rw (same_refl server) refl,
      )
