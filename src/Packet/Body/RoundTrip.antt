-- ===== src/Packet/Body/RoundTrip.antt =====
-- What `FrameBody::write` writes, `FrameBody::read` reads back.
use mathlib.Core.List.{append_assoc, append-nil}
use native.Mathlib.Numerals.{unary_clauses}
use raknet_rs.Prelude.{
  if◌then◌else◌, ℕ, zero, suc, ◌-◌, ◌^◌, ◌≤◌, ◌<◌, ◌≡◌, refl, sym, Bool, true, false, not, ◌==◌,
  List, [], ◌∷◌, ◌++◌, length, length-append, replicate, All, arith, lt→ltb,
}
use raknet_rs.Prelude.Outcome.{Outcome, ok}
use raknet_rs.Packet.Buf.{Buf, put_u8, put_u16}
use raknet_rs.Packet.Consumes.{require_then}
use raknet_rs.Packet.Addr.{SocketAddr, put_socket_addr}
use raknet_rs.Packet.Addr.Laws.{
  AddrFits, addr_size, length-put_socket_addr, get_socket_addr-put_socket_addr,
}
use raknet_rs.Packet.Unconnected.{put_u64}
use raknet_rs.Packet.PackType.{PackType, from_u8, from_u8-to_u8}
use raknet_rs.Packet.Body.{
  FrameBody, connected_ping, connected_pong, connection_request, connection_request_accepted,
  new_incoming_connection, disconnect_notification, detect_lost_connections, user, parse_addresses,
  parse_system_addresses, read_arm, read_identified, read, put_addresses, write,
}

-- The types that are not read as a packet of the library's own.
abbrev pub IsUser : Outcome PackType → Type 0
IsUser (ok PackType.connected_ping) = ⊥
IsUser (ok PackType.connected_pong) = ⊥
IsUser (ok PackType.connection_request) = ⊥
IsUser (ok PackType.connection_request_accepted) = ⊥
IsUser (ok PackType.new_incoming_connection) = ⊥
IsUser (ok PackType.disconnect_notification) = ⊥
IsUser (ok PackType.detect_lost_connections) = ⊥
IsUser r = Unit

-- A body in the ranges of its fields: the array of addresses has 20, and a user's content is not empty
-- and does not begin with the type of another body.
abbrev pub IsValid : FrameBody → Type 0
IsValid (connected_ping t) = t < 2 ^ 64
IsValid (connected_pong t u) = (t < 2 ^ 64) × (u < 2 ^ 64)
IsValid (connection_request g t e) = (g < 2 ^ 64) × (t < 2 ^ 64)
IsValid (connection_request_accepted a i addrs t u) =
    AddrFits a
    × (i < 2 ^ 16)
    × (length addrs ≡ 20)
    × All AddrFits addrs
    × (t < 2 ^ 64)
    × (u < 2 ^ 64)
IsValid (new_incoming_connection a addrs t u) =
    AddrFits a × (length addrs ≡ 20) × All AddrFits addrs × (t < 2 ^ 64) × (u < 2 ^ 64)
IsValid disconnect_notification = Unit
IsValid detect_lost_connections = Unit
IsValid (user []) = ⊥
IsValid (user (x ∷ content)) = IsUser (from_u8 x)

module _ ⦃b : Buf⦄ where
  addr_size-le : (a : SocketAddr) → 7 ≤ length (put_socket_addr a)
  addr_size-le a = some_bytes a (length-put_socket_addr a)
    where
      some_bytes :
          (a : SocketAddr)
          → length (put_socket_addr a) ≡ addr_size a
          → 7 ≤ length (put_socket_addr a)
      some_bytes (SocketAddr.v4 i p) h = omega arith
      some_bytes (SocketAddr.v6 i p g s) h = omega arith

  pub parse_addresses-put_addresses :
      (first : SocketAddr) (n : ℕ) (addrs : List SocketAddr) (rest : List ℕ)
      → length addrs ≤ n
      → All AddrFits addrs
      → length rest ≡ 16
      → parse_addresses first n (put_addresses addrs ++ rest)
        ≡ ok (addrs ++ replicate (n - length addrs) first, rest)
  unfolding parse_addresses
  parse_addresses-put_addresses first zero [] rest h k l = refl
  parse_addresses-put_addresses first (suc n) [] rest h k l = rw l (simp unary_clauses refl)
  parse_addresses-put_addresses first zero (a ∷ addrs) rest h k l = absurd (omega arith)
  parse_addresses-put_addresses first (suc n) (a ∷ addrs) rest h (k, ks) l =
      rw
        (
          append_assoc,
          lt→ltb 16 (length (put_socket_addr a ++ (put_addresses addrs ++ rest)))
              (omega (arith, length-append {0}, addr_size-le a)),
          get_socket_addr-put_socket_addr a (put_addresses addrs ++ rest) k,
          parse_addresses-put_addresses first n addrs rest (omega arith) ks l,
        )
        (simp unary_clauses refl)

  -- Up to 20 addresses before the 16 bytes of the timestamps are read, and the first stands in for what
  -- is missing.
  pub parse_system_addresses-put_addresses :
      (a : SocketAddr) (addrs : List SocketAddr) (rest : List ℕ)
      → length addrs ≤ 19
      → All AddrFits (a ∷ addrs)
      → length rest ≡ 16
      → parse_system_addresses (put_addresses (a ∷ addrs) ++ rest)
        ≡ ok (a ∷ (addrs ++ replicate (19 - length addrs) a), rest)
  unfolding parse_system_addresses
  parse_system_addresses-put_addresses a addrs rest h (k, ks) l =
      rw
        (
          append_assoc,
          get_socket_addr-put_socket_addr a (put_addresses addrs ++ rest) k,
          parse_addresses-put_addresses a 19 addrs rest h ks l,
          l,
        )
        refl

  parse_array :
      (addrs : List SocketAddr) (rest : List ℕ)
      → length addrs ≡ 20
      → All AddrFits addrs
      → length rest ≡ 16
      → parse_system_addresses (put_addresses addrs ++ rest) ≡ ok (addrs, rest)
  parse_array [] rest h k l = absurd (omega arith)
  parse_array (a ∷ addrs) rest h k l =
      rw
        (
          parse_system_addresses-put_addresses a addrs rest (omega arith) k l,
          none_missing,
          append-nil addrs,
        )
        refl
    where
      none_missing : 19 - length addrs ≡ 0
      none_missing = omega arith

  bool_byte : (e : Bool) → (if e then 1 else 0) < 256
  bool_byte true = omega arith
  bool_byte false = omega arith

  two_stamps : (t u : ℕ) → length (put_u64 t ++ put_u64 u) ≡ 16
  two_stamps t u = omega (arith, length-append {0}, b.length-put_uint)

  -- The last integer of some bytes.
  get_last : (n v : ℕ) → v < 256 ^ n → b.get_uint n (b.put_uint n v) ≡ ok (v, [])
  get_last n v h = rw (sym (append-nil (b.put_uint n v))) (b.get_uint-put_uint n v [] h)

  -- A body in the ranges of its fields reads back from what is written of it. An array of addresses has
  -- 20 of them, and the content of a user's body is not empty and does not begin with the type of another
  -- body.
  pub read-write_body : (body : FrameBody) → IsValid body → read (write body) ≡ ok body
  unfolding read write read_identified read_arm
  read-write_body (connected_ping t) h = rw (from_u8-to_u8 PackType.connected_ping) (
      require_then 9 (0 ∷ put_u64 t) _ _ (omega (arith, b.length-put_uint))
        (rw (get_last 8 t h) refl))
  read-write_body (connected_pong t u) (h, k) = rw (from_u8-to_u8 PackType.connected_pong) (
      require_then 17 (3 ∷ (put_u64 t ++ put_u64 u)) _ _ (omega (arith, two_stamps t u))
        (rw (b.get_uint-put_uint 8 t (put_u64 u) h, get_last 8 u k) refl))
  read-write_body (connection_request g t e) (h, k) =
      rw (from_u8-to_u8 PackType.connection_request) (
        require_then 18 (9 ∷ (put_u64 g ++ (put_u64 t ++ put_u8 (if e then 1 else 0)))) _ _
          (omega (arith, length-append {0}, b.length-put_uint))
          (rw
            (
              b.get_uint-put_uint 8 g (put_u64 t ++ put_u8 (if e then 1 else 0)) h,
              b.get_uint-put_uint 8 t (put_u8 (if e then 1 else 0)) k,
              get_last 1 (if e then 1 else 0) (bool_byte e),
            )
            (decided e)))
    where
      decided :
          (e : Bool)
          → ok (connection_request g t (not ((if e then 1 else 0) == 0)))
            ≡ ok (connection_request g t e)
      decided true = refl
      decided false = refl
  read-write_body (connection_request_accepted a i addrs t u) (h, j, n, k, l, m) =
      rw
        (
          from_u8-to_u8 PackType.connection_request_accepted,
          get_socket_addr-put_socket_addr a
              (put_u16 i ++ (put_addresses addrs ++ (put_u64 t ++ put_u64 u))) h,
        )
        (require_then 2 (put_u16 i ++ (put_addresses addrs ++ (put_u64 t ++ put_u64 u))) _ _
          (omega (arith, length-append {0}, b.length-put_uint))
          (rw
            (
              b.get_uint-put_uint 2 i (put_addresses addrs ++ (put_u64 t ++ put_u64 u)) j,
              parse_array addrs (put_u64 t ++ put_u64 u) n k (two_stamps t u),
              b.get_uint-put_uint 8 t (put_u64 u) l,
              get_last 8 u m,
            )
            refl))
  read-write_body (new_incoming_connection a addrs t u) (h, n, k, l, m) =
      rw
        (
          from_u8-to_u8 PackType.new_incoming_connection,
          get_socket_addr-put_socket_addr a (put_addresses addrs ++ (put_u64 t ++ put_u64 u)) h,
          parse_array addrs (put_u64 t ++ put_u64 u) n k (two_stamps t u),
          b.get_uint-put_uint 8 t (put_u64 u) l,
          get_last 8 u m,
        )
        refl
  read-write_body disconnect_notification h =
      rw (from_u8-to_u8 PackType.disconnect_notification) refl
  read-write_body detect_lost_connections h =
      rw (from_u8-to_u8 PackType.detect_lost_connections) refl
  read-write_body (user []) h = absurd h
  read-write_body (user (x ∷ content)) h = user_read (from_u8 x) h
    where
      user_read :
          (r : Outcome PackType)
          → IsUser r
          → read_identified r (x ∷ content) content ≡ ok (user (x ∷ content))
      user_read (ok PackType.connected_ping) h = absurd h
      user_read (ok PackType.connected_pong) h = absurd h
      user_read (ok PackType.connection_request) h = absurd h
      user_read (ok PackType.connection_request_accepted) h = absurd h
      user_read (ok PackType.new_incoming_connection) h = absurd h
      user_read (ok PackType.disconnect_notification) h = absurd h
      user_read (ok PackType.detect_lost_connections) h = absurd h
      user_read r h = refl
