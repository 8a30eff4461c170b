-- ===== src/Server/Routing.antt =====
-- The routes of a server are those of its open connections, and a close event finds its route.
use raknet_rs.Prelude.{
  ℕ, ◌+◌, ◌<◌, ◌≡◌, refl, sym, ap, ◌∙◌, List, [], ◌∷◌, if◌then◌else◌, Option, none, some, arith,
  inl, inr,
}
use mathlib.Core.Path.{subst}
use raknet_rs.Prelude.Outcome.{ok, bind_ok, ok_value}
use raknet_rs.Prelude.Lru.{Lru}
use raknet_rs.Packet.Addr.{SocketAddr}
use raknet_rs.Packet.Addr.Eq.{same_refl, same-cases, insert, remove}
use raknet_rs.Packet.Connected
use raknet_rs.Link
use raknet_rs.Link.{Route, deliver}
use raknet_rs.Handshake.Transport.{Transport}
use raknet_rs.Handshake.Server
use raknet_rs.Handshake.Server.{Peer, Handler, Control, again, wait, ended, yield}
use raknet_rs.Server.{
  Config, Polled, connection, Incoming, new, close_all, process_closed, route, dispatch, round,
  close_on_drop,
}
use raknet_rs.Server.Open.{
  close_one, count, count-append, count-drop_one, drop_one, present, present-some,
}

-- The open connections, behind what a round comes to.
abbrev pub opened : Polled → List SocketAddr → List SocketAddr
opened (connection peer) live = peer.addr ∷ live
opened p live = live

module _ ⦃l : Lru SocketAddr ℕ⦄ {F : Type 0} where
  -- The routes are those of the open connections and of the close events to come, one each.
  abbrev pub Routed : Incoming F → List SocketAddr → Type 0
  Routed i live = (a : SocketAddr) → count a i.close_events + count a live ≡ present (i.router a)

  -- The servers that rounds, dropped connections and close events lead to, with the open connections.
  pub data Reaches (io : Transport F) (c : Config) : Incoming F → List SocketAddr → Type 0 where
    start : (frame : F) (i : Incoming F) → new frame c ≡ ok i → Reaches io c i []
    polled :
        (i i' : Incoming F) (live : List SocketAddr) (now : ℕ) (p : Polled)
        → Reaches io c i live
        → round io now i ≡ ok (p, i')
        → Reaches io c i' (opened p live)
    closed :
        (i i' : Incoming F) (live : List SocketAddr)
        → Reaches io c i live
        → process_closed i ≡ ok i'
        → Reaches io c i' live
    dropped :
        (i : Incoming F) (live : List SocketAddr) (a : SocketAddr)
        → Reaches io c i live
        → 0 < count a live
        → Reaches io c (close_on_drop a i) (drop_one a live)

  close_all-Routed :
      (evs : List SocketAddr) (i : Incoming F) (live : List SocketAddr)
      → ((a : SocketAddr) → count a evs + count a live ≡ present (i.router a))
      → (i' : Incoming F) × (close_all evs i ≡ ok i')
        × ((a : SocketAddr) → present (i'.router a) ≡ count a live)
        × (i'.close_events ≡ i.close_events)
  unfolding close_all
  close_all-Routed [] i live h = (i, refl, (λ a. omega (arith, h a)), refl)
  close_all-Routed (ev ∷ evs) i live h =
      let here =
        subst (λ b. (if b then 1 else 0) + count ev evs + count ev live ≡ present (i.router ev))
          (same_refl ev) (h ev) in
      let (entry, e) = present-some (i.router ev) (omega (arith, here)) in
      let (i', f, p, n) =
        close_all-Routed evs
          (record i { offline = Server.disconnect ev i.offline; router = remove ev i.router }) live
          (λ a. close_one ev a evs live i.router h) in
      (i', rw e f, p, n)

  -- A route takes a packet, or is opened.
  known-Routed :
      (k : SocketAddr) (entry entry' : Route) (i : Incoming F) (live : List SocketAddr)
      → Routed i live
      → i.router k ≡ some entry
      → Routed (record i { router = insert k entry' i.router }) live
  known-Routed k entry entry' i live h e a = elim (same-cases a k) [
    | inl s ↦ rw (s, same_refl k) (omega (arith, h k, ap present e))
    | inr (ne, s) ↦ rw s (h a)
  ]

  fresh-Routed :
      (k : SocketAddr) (entry : Route) (i : Incoming F) (live : List SocketAddr)
      → Routed i live
      → i.router k ≡ none
      → Routed (record i { router = insert k entry i.router }) (k ∷ live)
  fresh-Routed k entry i live h e a = elim (same-cases a k) [
    | inl s ↦
        subst
          (λ x. count x i.close_events + count x (k ∷ live) ≡ present (insert k entry i.router x))
          (sym s) here
    | inr (ne, s) ↦ rw s (omega (arith, h a))
  ]
    where
      here : count k i.close_events + count k (k ∷ live) ≡ present (insert k entry i.router k)
      here = rw (same_refl k) (omega (arith, h k, ap present e))

  abbrev RoutedAfter : List SocketAddr → Polled × Incoming F → Type 0
  RoutedAfter live (p, i') = Routed i' (opened p live)

  route-Routed :
      (now : ℕ) (pack : Connected.Packet) (peer : Peer) (o : Option Route) (i : Incoming F)
      (live : List SocketAddr) (r : Polled × Incoming F)
      → Routed i live
      → i.router peer.addr ≡ o
      → route now pack peer o i ≡ ok r
      → RoutedAfter live r
  unfolding route
  route-Routed now pack peer (some entry) i live r h e f =
      let (x, g, k) = bind_ok (deliver now pack entry) _ f in
      subst (RoutedAfter live) (ok_value k) (known-Routed peer.addr entry x.1 i live h e)
  route-Routed now pack peer none i live r h e f =
      let (x, g, k) = bind_ok (deliver now pack (Link.new Link.new_arc)) _ f in
      subst (RoutedAfter live) (ok_value k) (fresh-Routed peer.addr x.1 i live h e)

  dispatch-Routed :
      (now : ℕ) (control : Control) (i : Incoming F) (live : List SocketAddr)
      (r : Polled × Incoming F)
      → Routed i live
      → dispatch now control i ≡ ok r
      → RoutedAfter live r
  unfolding dispatch
  dispatch-Routed now again i live r h e = subst (RoutedAfter live) (ok_value e) h
  dispatch-Routed now wait i live r h e = subst (RoutedAfter live) (ok_value e) h
  dispatch-Routed now ended i live r h e = subst (RoutedAfter live) (ok_value e) h
  dispatch-Routed now (yield pack peer) i live r h e =
      route-Routed now pack peer (i.router peer.addr) i live r h refl e

  round-Routed :
      (io : Transport F) (now : ℕ) (i : Incoming F) (live : List SocketAddr)
      (r : Polled × Incoming F)
      → Routed i live
      → round io now i ≡ ok r
      → RoutedAfter live r
  unfolding round
  round-Routed io now i live r h e =
      let (x, g, k) = bind_ok (Server.round io i.offline) _ e in
      dispatch-Routed now x.0 (record i { offline = x.1 }) live r h k

  new-Routed : (frame : F) (c : Config) (i : Incoming F) → new frame c ≡ ok i → Routed i []
  unfolding new
  new-Routed frame c i e a =
      let (x, g, k) = bind_ok (Server.new frame _) _ e in rw (← ok_value k) refl

  process_closed-Routed :
      (i : Incoming F) (live : List SocketAddr)
      → Routed i live
      → (i' : Incoming F) × (process_closed i ≡ ok i')
        × ((a : SocketAddr) → present (i'.router a) ≡ count a live)
        × (i'.close_events ≡ [])
  unfolding process_closed
  process_closed-Routed i live h =
      close_all-Routed i.close_events (record i { close_events = [] }) live h

  Reaches-Routed :
      (io : Transport F) (c : Config) (i : Incoming F) (live : List SocketAddr)
      → Reaches io c i live
      → Routed i live
  Reaches-Routed io c j live (start frame i e) = new-Routed frame c i e
  Reaches-Routed io c j live (polled i i' before now p r e) =
      round-Routed io now i before (p, i') (Reaches-Routed io c i before r) e
  Reaches-Routed io c k live (closed j i' others r e) =
      let (i'', f, p, n) = process_closed-Routed j others (Reaches-Routed io c j others r) in
      subst (λ x. Routed x others) (ok_value (sym f ∙ e))
        (λ a.
          subst (λ xs. count a xs + count a others ≡ present (i''.router a)) (sym n)
            (omega (arith, p a)))
  Reaches-Routed io c j live (dropped i before k r n) = λ a. omega (
    arith,
    count-append a i.close_events k,
    count-drop_one a k before n,
    Reaches-Routed io c i before r a,
  )

  -- In every server that rounds, dropped connections and close events lead to from a new one, each close event
  -- finds the route of its connection: processing the events does not panic, and leaves one route for
  -- each address of an open connection, and no other.
  pub process_closed-Routes :
      (io : Transport F) (c : Config) (i : Incoming F) (live : List SocketAddr)
      → Reaches io c i live
      → (i' : Incoming F) × (process_closed i ≡ ok i')
        × ((a : SocketAddr) → present (i'.router a) ≡ count a live)
  process_closed-Routes io c i live r =
      let (i', e, p, n) = process_closed-Routed i live (Reaches-Routed io c i live r) in (i', e, p)
