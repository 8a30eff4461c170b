-- ===== src/Handshake/Server/Invariant.antt =====
-- The rounds of a handler keep its tables accounted for, so that every peer has gone through the
-- handshake.
use raknet_rs.Prelude.{
  ℕ, ◌≤◌, ◌≡◌, ◌≢◌, refl, Bool, true, false, List, [], ◌∷◌, Option, none, some, ltb, Bool-cases,
  ◌⊎◌, inl, inr,
}
use raknet_rs.Prelude.Outcome.{Outcome, ok, err, panic, stuck, ◌>>=◌}
use raknet_rs.Packet.Addr.{SocketAddr}
use raknet_rs.Packet.Addr.Eq.{remove, same, same-cases, same_refl}
use raknet_rs.Packet.Unconnected
use raknet_rs.Packet.Connected
use raknet_rs.State.{Poll}
use raknet_rs.Prelude.Lru.{Lru}
use raknet_rs.Handshake.Transport.{Transport, Received, nothing_yet, closed, datagram}
use raknet_rs.Handshake.Server
use raknet_rs.Handshake.Server.{
  Peer, Config, supports, clamp, Reaction, deliver, respond, ignore, OfflineState, Control, again,
  wait, ended, yield, Tables, handle, Handler, new, disconnect, react, listen, prepare, flush,
  round, sending_prepare, sending_flush, sent, round_in, make_incompatible_version,
}
use raknet_rs.Handshake.Server.History.{
  Event, received, disconnected, Opened, second, Explained, popped, Handled, handle-Handled,
}

-- A peer has the address under which it is known.
Opened-addr :
    (c : Config) (a : SocketAddr) (p : Peer) (log : List Event) → Opened c a p log → p.addr ≡ a
Opened-addr c a p log (second v guid mtu s log' r lo hi e) = rw e refl
Opened-addr c a p log (Opened.later e log' n o) = Opened-addr c a p log' o

Opened-own :
    (c : Config) (a : SocketAddr) (p : Peer) (log : List Event)
    → Opened c a p log
    → Opened c p.addr p log
Opened-own c a p log o = rw (← Opened-addr c a p log o) at o

-- The `mtu` of a peer is in the bounds of the configuration.
Opened-mtu :
    (c : Config) (a : SocketAddr) (p : Peer) (log : List Event)
    → Opened c a p log
    → (c.min_mtu ≤ p.mtu) × (p.mtu ≤ c.max_mtu)
Opened-mtu c a p log (second v guid mtu s log' r lo hi e) = rw e (lo, hi)
Opened-mtu c a p log (Opened.later e log' n o) = Opened-mtu c a p log' o

module _ ⦃l : Lru SocketAddr ℕ⦄ where
  module _ {F : Type 0} (io : Transport F) where
    -- What a round of a handler hears.
    abbrev pub heard : Received × F → List Event → List Event
    heard (datagram p addr, frame) log = received p addr ∷ log
    heard r log = log

    abbrev pub heard_in : OfflineState → F → List Event → List Event
    heard_in Server.listening frame log = heard (io.poll_next frame) log
    heard_in s frame log = log

    -- The handlers that rounds and disconnections lead to, each with its log.
    pub data Reaches (c : Config) : Handler F → List Event → Type 0 where
      start : (frame : F) (h : Handler F) → new frame c ≡ ok h → Reaches c h []
      polled :
          (h h' : Handler F) (log : List Event) (ctl : Control)
          → Reaches c h log
          → round io h ≡ ok (ctl, h')
          → Reaches c h' (heard_in h.state h.frame log)
      dropped :
          (h : Handler F) (log : List Event) (a : SocketAddr)
          → Reaches c h log
          → Reaches c (disconnect a h) (disconnected a ∷ log)

    abbrev pub Sound : Config → List Event → Handler F → Type 0
    Sound c log h = (h.config ≡ c) × Explained c log h.tables

    -- After a round.
    abbrev pub Continues : Config → List Event → Outcome (Control × Handler F) → Type 0
    Continues c log (ok (yield pack peer, h)) = Opened c peer.addr peer log × Sound c log h
    Continues c log (ok (ctl, h)) = Sound c log h
    Continues c log r = Unit

    listen-Continues :
        (c : Config) (log : List Event) (h : Handler F) (r : Received × F)
        → Sound c log h
        → Continues c (heard r log) (listen io h r)
    unfolding listen
    listen-Continues c log h (nothing_yet, frame) s = s
    listen-Continues c log h (closed, frame) s = s
    listen-Continues c log h (datagram p addr, frame) (e, s) =
        reacted (handle h.config p addr h.tables) (rw e (handle-Handled c p addr log h.tables s))
      where
        after : Reaction × Tables → Control × Handler F
        after (reaction, tables) = react reaction addr (record h { frame = frame; tables = tables })

        reacted :
            (m : Outcome (Reaction × Tables))
            → Handled c addr (received p addr ∷ log) m
            → Continues c (received p addr ∷ log) (m >>= λ q. ok (after q))
        reacted (ok (deliver pack peer, t)) (o, k) = (Opened-own c addr peer _ o, (e, k))
        reacted (ok (respond x, t)) k = (e, k)
        reacted (ok (ignore, t)) k = (e, k)
        reacted (err x) k = tt
        reacted panic k = tt
        reacted stuck k = tt

    sent-Sound :
        (c : Config) (log : List Event) (h : Handler F) (r : Bool × F)
        → Sound c log h
        → Continues c log (ok (sent io h r))
    sent-Sound c log h (true, frame) s = s
    sent-Sound c log h (false, frame) s = s

    prepare-Continues :
        (c : Config) (log : List Event) (h : Handler F)
        (pack : Option (Unconnected.Packet × SocketAddr)) (r : Poll × F)
        → Sound c log h
        → Continues c log (prepare io pack h r)
    unfolding prepare
    prepare-Continues c log h pack (Poll.pending, frame) s = s
    prepare-Continues c log h pack (Poll.failed, frame) s = s
    prepare-Continues c log h none (Poll.done, frame) s = tt
    prepare-Continues c log h (some (p, addr)) (Poll.done, frame) s =
        sent-Sound c log h (io.start_send p addr frame) s

    flush-Continues :
        (c : Config) (log : List Event) (h : Handler F) (r : Poll × F)
        → Sound c log h
        → Continues c log (flush io h r)
    unfolding flush
    flush-Continues c log h (Poll.pending, frame) s = s
    flush-Continues c log h (Poll.done, frame) s = s
    flush-Continues c log h (Poll.failed, frame) s = s

    round-Continues :
        (c : Config) (log : List Event) (h : Handler F) (st : OfflineState)
        → Sound c log h
        → Continues c (heard_in st h.frame log) (round_in io st h)
    unfolding round_in
    round-Continues c log h Server.listening s = listen-Continues c log h (io.poll_next h.frame) s
    round-Continues c log h (sending_prepare pack) s =
        prepare-Continues c log h pack (io.poll_ready h.frame) s
    round-Continues c log h sending_flush s = flush-Continues c log h (io.poll_flush h.frame) s

    disconnect-Sound :
        (c : Config) (log : List Event) (h : Handler F) (a : SocketAddr)
        → Sound c log h
        → Sound c (disconnected a ∷ log) (disconnect a h)
    unfolding disconnect
    disconnect-Sound c log h a (e, s) = (
      e,
      record {
        of_pending = popped c log (disconnected a) a h.tables (λ x n k. n cc) s;
        of_connected = λ x p k. kept x p k (same-cases x a);
      },
    )
      where
        kept :
            (x : SocketAddr) (p : Peer)
            → remove a h.tables.connected x ≡ some p
            → (x ≡ a) ⊎ ((x ≢ a) × (same x a ≡ false))
            → Opened c x p (disconnected a ∷ log)
        kept x p k (inl h) = absurd (gone h)
          where
            gone : x ≡ a → ⊥
            gone h = cc (k, h, same_refl a)
        kept x p k (inr (n, d)) =
            Opened.later (disconnected a) log (λ q. n cc) (s.of_connected x p (rw d at k))

    continued :
        (c : Config) (log : List Event) (ctl : Control) (h : Handler F)
        → Continues c log (ok (ctl, h))
        → Sound c log h
    continued c log again h k = k
    continued c log wait h k = k
    continued c log ended h k = k
    continued c log (yield pack peer) h k = k.1

    abbrev Built : Config → Outcome (Handler F) → Type 0
    Built c (ok h) = Sound c [] h
    Built c r = Unit

    new-Built : (c : Config) (frame : F) → Built c (new frame c)
    unfolding new
    new-Built c frame = elim (Bool-cases (ltb 0 c.max_pending)) [
      | inl k ↦ rw k (
        refl,
        record {
          of_pending = λ a v e. absurd (cc (e, l.peek-new c.max_pending a));
          of_connected = λ a p e. absurd cc;
        },
      )
      | inr k ↦ rw k tt
    ]

    Reaches-Sound :
        (c : Config) (h : Handler F) (log : List Event) → Reaches c h log → Sound c log h
    Reaches-Sound c h log (start frame h' e) = rw e at (new-Built c frame)
    Reaches-Sound c h log (polled h₀ h' log₀ ctl r e) =
        continued c _ ctl h'
          (rw e at (round-Continues c log₀ h₀ h₀.state (Reaches-Sound c h₀ log₀ r)))
    Reaches-Sound c h log (dropped h₀ log₀ a r) =
        disconnect-Sound c log₀ h₀ a (Reaches-Sound c h₀ log₀ r)

    -- In every handler that rounds and disconnections lead to from a new one, an address with a peer has
    -- sent a first request of a supported version and later a second one, and was not disconnected after
    -- either; the peer has that address, and an `mtu` from `min_mtu` to `max_mtu`.
    pub connected-Opened :
        (c : Config) (h : Handler F) (log : List Event) (a : SocketAddr) (p : Peer)
        → Reaches c h log
        → h.tables.connected a ≡ some p
        → Opened c a p log × (p.addr ≡ a) × ((c.min_mtu ≤ p.mtu) × (p.mtu ≤ c.max_mtu))
    connected-Opened c h log a p r k =
        let (e, s) = Reaches-Sound c h log r in
        let o = s.of_connected a p k in (o, Opened-addr c a p log o, Opened-mtu c a p log o)

    -- A connected packet that a round hands up comes with a peer that has gone through that handshake.
    pub yield-Opened :
        (c : Config) (h h' : Handler F) (log : List Event) (pack : Connected.Packet) (peer : Peer)
        → Reaches c h log
        → round io h ≡ ok (yield pack peer, h')
        → Opened c peer.addr peer (heard_in h.state h.frame log)
    yield-Opened c h h' log pack peer r e =
        (rw e at (round-Continues c log h h.state (Reaches-Sound c h log r))).0
