-- ===== src/Handshake/Server/History.antt =====
-- Who is a peer: whoever has sent both requests, in the order of the protocol, since it was last
-- disconnected.
use raknet_rs.Prelude.{
  ℕ, ◌≤◌, ◌≡◌, ◌≢◌, refl, Bool, true, false, ◌||◌, List, ◌∷◌, some, ltb, ltb_false→le, Bool-cases,
  Option-cases, ◌⊎◌, inl, inr,
}
use raknet_rs.Prelude.Outcome.{Outcome, ok, err, panic, stuck, ◌>>=◌}
use raknet_rs.Packet.Buf.{is_some}
use raknet_rs.Packet.Addr.{SocketAddr}
use raknet_rs.Packet.Addr.Eq.{insert, same, same-cases, same_refl}
use raknet_rs.Packet.Unconnected
use raknet_rs.Packet.Dispatch.{Packet, unconnected, connected}
use raknet_rs.Prelude.Lru.{Lru}
use raknet_rs.Handshake.Server.{
  Peer, Config, supports, clamp, Reaction, deliver, respond, Tables, handle,
  make_incompatible_version,
}

-- What has happened to a handler, the latest first.
pub data Event : Type 0 where
  received : Packet → SocketAddr → Event
  disconnected : SocketAddr → Event

-- The address has sent a first request, of a version that is supported, and was not disconnected since.
pub data Requested (c : Config) (a : SocketAddr) (v : ℕ) : List Event → Type 0 where
  first :
      (mtu : ℕ) (log : List Event)
      → supports v c.support_version ≡ true
      → Requested c a v
          (received (unconnected (Unconnected.open_connection_request1 v mtu)) a ∷ log)
  later :
      (e : Event) (log : List Event)
      → e ≢ disconnected a
      → Requested c a v log
      → Requested c a v (e ∷ log)

-- After that it has sent a second one, of an `mtu` in the bounds, and was not disconnected since.
pub data Opened (c : Config) (a : SocketAddr) (p : Peer) : List Event → Type 0 where
  second :
      (v guid mtu : ℕ) (server_address : SocketAddr) (log : List Event)
      → Requested c a v log
      → c.min_mtu ≤ mtu
      → mtu ≤ c.max_mtu
      → p ≡ record { guid = guid; addr = a; mtu = mtu }
      → Opened c a p (
          received (unconnected (Unconnected.open_connection_request2 server_address mtu guid)) a
          ∷ log)
  later :
      (e : Event) (log : List Event)
      → e ≢ disconnected a
      → Opened c a p log
      → Opened c a p (e ∷ log)

neither : (x y z : Bool) → ((x || y) || z) ≡ false → (x ≡ false) × (y ≡ false)
neither false false z h = (refl, refl)
neither false true z h = absurd cc
neither true y z h = absurd cc

module _ ⦃l : Lru SocketAddr ℕ⦄ where
  -- The tables hold only what the log accounts for.
  pub record Explained (c : Config) (log : List Event) (t : Tables) : Type 0 where
    pub of_pending : (a : SocketAddr) (v : ℕ) → l.peek a t.pending ≡ some v → Requested c a v log
    pub of_connected : (a : SocketAddr) (p : Peer) → t.connected a ≡ some p → Opened c a p log

  -- A datagram that changes nothing of the tables.
  unchanged :
      (c : Config) (log : List Event) (p : Packet) (addr : SocketAddr) (t : Tables)
      → Explained c log t
      → Explained c (received p addr ∷ log) t
  unchanged c log p addr t e = record {
    of_pending = λ a v k. later (received p addr) log (λ h. cc) (e.of_pending a v k);
    of_connected = λ a q k. later (received p addr) log (λ h. cc) (e.of_connected a q k);
  }

  -- A first request of a version that is supported is pending, and an insertion may evict others.
  request1 :
      (c : Config) (log : List Event) (v mtu : ℕ) (addr : SocketAddr) (t : Tables)
      → supports v c.support_version ≡ true
      → Explained c log t
      → Explained c
          (received (unconnected (Unconnected.open_connection_request1 v mtu)) addr ∷ log)
          (record t { pending = (l.put addr v t.pending).1 })
  request1 c log v mtu addr t s e = record {
    of_pending = λ a w k. asked a w k (same-cases a addr);
    of_connected = λ a q k. later (received p addr) log (λ h. cc) (e.of_connected a q k);
  }
    where
      p : Packet
      p = unconnected (Unconnected.open_connection_request1 v mtu)

      asked :
          (a : SocketAddr) (w : ℕ)
          → l.peek a (l.put addr v t.pending).1 ≡ some w
          → (a ≡ addr) ⊎ ((a ≢ addr) × (same a addr ≡ false))
          → Requested c a w (received p addr ∷ log)
      asked a w k (inl h) = rw (h, version) (first mtu log s)
        where
          version : w ≡ v
          version = cc (k, h, l.peek-put addr v t.pending)
      asked a w k (inr (h, n)) =
          later (received p addr) log (λ q. cc)
            (e.of_pending a w (l.peek-put_other a addr v w t.pending h k))

  -- What is popped leaves the others as they are.
  pub popped :
      (c : Config) (log : List Event) (x : Event) (addr : SocketAddr) (t : Tables)
      → ((a : SocketAddr) → a ≢ addr → x ≢ disconnected a)
      → Explained c log t
      → (a : SocketAddr) (v : ℕ) → l.peek a (l.pop addr t.pending).1 ≡ some v
      → Requested c a v (x ∷ log)
  popped c log x addr t other e a v k = elim (same-cases a addr) [
    | inl h ↦ absurd (gone h)
    | inr n ↦ later x log (other a n.0) (e.of_pending a v (kept n.0))
  ]
    where
      gone : a ≡ addr → ⊥
      gone h = cc (k, h, l.peek-pop addr t.pending)

      kept : a ≢ addr → l.peek a t.pending ≡ some v
      kept n = cc (k, l.peek-pop_other a addr t.pending n)

  -- A second request of a pending address, in the bounds of the configuration.
  request2 :
      (c : Config) (log : List Event) (s : SocketAddr) (v mtu guid : ℕ) (addr : SocketAddr)
      (t : Tables)
      → l.peek addr t.pending ≡ some v
      → c.min_mtu ≤ mtu
      → mtu ≤ c.max_mtu
      → Explained c log t
      → Explained c
          (received (unconnected (Unconnected.open_connection_request2 s mtu guid)) addr ∷ log)
          (record {
            pending = (l.pop addr t.pending).1;
            connected = insert addr (record { guid = guid; addr = addr; mtu = mtu }) t.connected;
          })
  request2 c log s v mtu guid addr t asked lo hi e = record {
    of_pending = popped c log (received p addr) addr t (λ a n h. cc) e;
    of_connected = λ a q k. opened a q k (same-cases a addr);
  }
    where
      p : Packet
      p = unconnected (Unconnected.open_connection_request2 s mtu guid)

      opened :
          (a : SocketAddr) (q : Peer)
          → insert addr (record { guid = guid; addr = addr; mtu = mtu }) t.connected a ≡ some q
          → (a ≡ addr) ⊎ ((a ≢ addr) × (same a addr ≡ false))
          → Opened c a q (received p addr ∷ log)
      opened a q k (inl h) = rw h (second v guid mtu s log (e.of_pending addr v asked) lo hi peer)
        where
          peer : q ≡ record { guid = guid; addr = addr; mtu = mtu }
          peer = cc (k, h, same_refl addr)
      opened a q k (inr (h, n)) =
          later (received p addr) log (λ r. cc) (e.of_connected a q (rw n at k))

  -- A second request that is turned down.
  refused :
      (c : Config) (log : List Event) (p : Packet) (addr : SocketAddr) (t : Tables)
      → Explained c log t
      → Explained c (received p addr ∷ log) (record t { pending = (l.pop addr t.pending).1 })
  refused c log p addr t e = record {
    of_pending = popped c log (received p addr) addr t (λ a n h. cc) e;
    of_connected = λ a q k. later (received p addr) log (λ h. cc) (e.of_connected a q k);
  }

  -- What is handed up comes from a peer, and the tables stay accounted for.
  abbrev pub Handled : Config → SocketAddr → List Event → Outcome (Reaction × Tables) → Type 0
  Handled c addr log (ok (deliver pack peer, t)) = Opened c addr peer log × Explained c log t
  Handled c addr log (ok (r, t)) = Explained c log t
  Handled c addr log r = Unit

  answered {ℓ} :
      {A : Type ℓ} (c : Config) (addr : SocketAddr) (log : List Event) (m : Outcome A)
      (f : A → Unconnected.Packet) (t : Tables)
      → Explained c log t
      → Handled c addr log (m >>= λ x. ok (respond (f x), t))
  answered c addr log (ok p) f t e = e
  answered c addr log (err x) f t e = tt
  answered c addr log panic f t e = tt
  answered c addr log stuck f t e = tt

  pub handle-Handled :
      (c : Config) (p : Packet) (addr : SocketAddr) (log : List Event) (t : Tables)
      → Explained c log t
      → Handled c addr (received p addr ∷ log) (handle c p addr t)
  unfolding handle
  handle-Handled c (connected pack) addr log t e = elim (Option-cases (t.connected addr)) [
    | inl n ↦ rw n (unchanged c log (connected pack) addr t e)
    | inr (peer, s) ↦ rw s (
      later (received (connected pack) addr) log (λ h. cc) (e.of_connected addr peer s),
      unchanged c log (connected pack) addr t e,
    )
  ]
  handle-Handled c (unconnected (Unconnected.open_connection_request1 v mtu)) addr log t e =
      elim (Bool-cases (supports v c.support_version)) [
        | inl s ↦ rw s (
            answered c addr _ (clamp mtu c.min_mtu c.max_mtu) _ _ (request1 c log v mtu addr t s e))
        | inr s ↦
            rw s (answered c addr _ (make_incompatible_version c) _ t (unchanged c log _ addr t e))
      ]
  handle-Handled c (unconnected (Unconnected.open_connection_request2 s mtu guid)) addr log t e =
      elim (Option-cases (l.pop addr t.pending).0) [
        | inl n ↦
            rw n (answered c addr _ (make_incompatible_version c) _ _ (refused c log _ addr t e))
        | inr (v, n) ↦
            rw n
              (elim (Bool-cases
                ((ltb mtu c.min_mtu || ltb c.max_mtu mtu) || is_some (t.connected addr))) [
                  | inl o ↦ rw o (refused c log _ addr t e)
                  | inr o ↦ rw o (
                      request2 c log s v mtu guid addr t (was_pending v n) (at_least o) (at_most o)
                        e)
                ])
      ]
    where
      was_pending : (v : ℕ) → (l.pop addr t.pending).0 ≡ some v → l.peek addr t.pending ≡ some v
      was_pending v n = cc (n, l.pop-old addr t.pending)

      at_least :
          ((ltb mtu c.min_mtu || ltb c.max_mtu mtu) || is_some (t.connected addr)) ≡ false
          → c.min_mtu ≤ mtu
      at_least o =
          ltb_false→le mtu c.min_mtu
            (neither (ltb mtu c.min_mtu) (ltb c.max_mtu mtu) (is_some (t.connected addr)) o).0

      at_most :
          ((ltb mtu c.min_mtu || ltb c.max_mtu mtu) || is_some (t.connected addr)) ≡ false
          → mtu ≤ c.max_mtu
      at_most o =
          ltb_false→le c.max_mtu mtu
            (neither (ltb mtu c.min_mtu) (ltb c.max_mtu mtu) (is_some (t.connected addr)) o).1
  handle-Handled c (unconnected p) addr log t e = unchanged c log (unconnected p) addr t e
