-- ===== src/Packet/Body/Overlong.antt =====
-- The `debug_assert!` of `parse_system_addresses` is within reach of a peer.
use mathlib.Core.List.{append_assoc}
use raknet_rs.Prelude.{
  ℕ, ◌<◌, ◌≡◌, refl, List, [], ◌∷◌, ◌++◌, length, length-append, All, arith, lt→ltb, le→leb, ◌==◌,
  false, ne→==,
}
use raknet_rs.Prelude.Outcome.{ok, panic}
use raknet_rs.Packet.Buf.{Buf}
use raknet_rs.Packet.Addr.{SocketAddr, put_socket_addr}
use raknet_rs.Packet.Addr.Laws.{AddrFits, get_socket_addr-put_socket_addr}
use raknet_rs.Packet.PackType.{PackType, to_u8, from_u8-to_u8}
use raknet_rs.Packet.Body.{
  parse_addresses, parse_system_addresses, read_arm, read_identified, read, put_addresses,
}

module _ ⦃b : Buf⦄ where
  parse_addresses-overlong :
      (first : SocketAddr) (addrs : List SocketAddr) (rest : List ℕ)
      → All AddrFits addrs
      → 16 < length rest
      → parse_addresses first (length addrs) (put_addresses addrs ++ rest) ≡ ok (addrs, rest)
  unfolding parse_addresses
  parse_addresses-overlong first [] rest k l = refl
  parse_addresses-overlong first (a ∷ addrs) rest (k, ks) l =
      rw
        (
          append_assoc,
          lt→ltb 16 (length (put_socket_addr a ++ (put_addresses addrs ++ rest)))
              (omega (arith, length-append {0})),
          get_socket_addr-put_socket_addr a (put_addresses addrs ++ rest) k,
          parse_addresses-overlong first addrs rest ks l,
        )
        refl

  overlong_addresses :
      (a : SocketAddr) (addrs : List SocketAddr) (rest : List ℕ)
      → length addrs ≡ 19
      → All AddrFits (a ∷ addrs)
      → 16 < length rest
      → parse_system_addresses (put_addresses (a ∷ addrs) ++ rest) ≡ panic
  unfolding parse_system_addresses
  overlong_addresses a addrs rest h (k, ks) l =
      rw (append_assoc, get_socket_addr-put_socket_addr a (put_addresses addrs ++ rest) k)
        (rw
          (
            n,
            parse_addresses-overlong a addrs rest ks l,
            le→leb 16 (length rest) (omega arith),
            more,
          )
          refl)
    where
      n : 19 ≡ length addrs
      n = omega arith

      more : (length rest == 16) ≡ false
      more = ne→== (length rest) 16 (λ e. omega arith)

  -- A body of the type `NewIncomingConnection` with 20 system addresses and more than the 16 bytes of
  -- its timestamps behind them makes `FrameBody::read` panic, where `debug_assert!` is compiled.
  pub read-overlong :
      (server : SocketAddr) (addrs : List SocketAddr) (rest : List ℕ)
      → AddrFits server
      → length addrs ≡ 20
      → All AddrFits addrs
      → 16 < length rest
      → read (
          to_u8 PackType.new_incoming_connection
          ∷ (put_socket_addr server ++ (put_addresses addrs ++ rest)))
        ≡ panic
  unfolding read read_identified read_arm
  read-overlong server [] rest f h k l = absurd (omega arith)
  read-overlong server (a ∷ addrs) rest f h k l =
      rw
        (
          from_u8-to_u8 PackType.new_incoming_connection,
          get_socket_addr-put_socket_addr server (put_addresses (a ∷ addrs) ++ rest) f,
          overlong_addresses a addrs rest (omega arith) k l,
        )
        refl
