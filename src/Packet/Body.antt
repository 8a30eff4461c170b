-- ===== src/Packet/Body.antt =====
-- `FrameBody` of src/packet/connected/frame_set.rs: the packets that a frame carries. Timestamps and
-- guids are the bits of their 64-bit integers.
pub mod RoundTrip
pub mod Overlong
use raknet_rs.Prelude.{
  ℕ, zero, suc, Bool, true, false, not, List, [], ◌∷◌, ◌++◌, if◌then◌else◌, length, replicate, leb,
  ltb, ◌==◌,
}
use raknet_rs.Prelude.Outcome.{
  invalid_packet_length, Outcome, ok, err, panic, ◌>>=◌, ◌>>◌, guard, assert, index,
}
use raknet_rs.Packet.Buf.{Buf, get_u8, get_u16, put_u8, put_u16, require}
use raknet_rs.Packet.Addr.{SocketAddr, get_socket_addr, put_socket_addr}
use raknet_rs.Packet.Unconnected.{get_u64, put_u64}
use raknet_rs.Packet.PackType
use raknet_rs.Packet.PackType.{PackType, from_u8, to_u8}

-- The system addresses are an array of 20.
pub data FrameBody : Type 0 where
  connected_ping : (client_timestamp : ℕ) → FrameBody
  connected_pong : (client_timestamp server_timestamp : ℕ) → FrameBody
  connection_request : (client_guid request_timestamp : ℕ) → (use_encryption : Bool) → FrameBody
  connection_request_accepted :
      (client_address : SocketAddr)
      → (system_index : ℕ) → (system_addresses : List SocketAddr)
      → (request_timestamp accepted_timestamp : ℕ) → FrameBody
  new_incoming_connection :
      (server_address : SocketAddr)
      → (system_addresses : List SocketAddr) → (request_timestamp accepted_timestamp : ℕ)
      → FrameBody
  disconnect_notification : FrameBody
  detect_lost_connections : FrameBody
  user : List ℕ → FrameBody

abbrev pub max_system_addresses_endpoints : ℕ
max_system_addresses_endpoints = 20

module _ ⦃b : Buf⦄ where
  -- The loop of `parse_system_addresses`, `count` places to go; what it leaves keeps the first address.
  unfoldable pub parse_addresses : SocketAddr → ℕ → List ℕ → Outcome (List SocketAddr × List ℕ)
  parse_addresses first zero buf = ok ([], buf)
  parse_addresses first (suc count) buf =
      if ltb 16 (length buf)
      then (do
        (addr, buf₁) ← get_socket_addr buf
        (addrs, buf₂) ← parse_addresses first count buf₁
        ok (addr ∷ addrs, buf₂))
      else ok (replicate (suc count) first, buf)

  -- `parse_system_addresses`, with its `debug_assert!`.
  unfoldable pub parse_system_addresses : List ℕ → Outcome (List SocketAddr × List ℕ)
  parse_system_addresses buf = do
    (first, buf₁) ← get_socket_addr buf
    (addrs, buf₂) ← parse_addresses first 19 buf₁
    guard (leb 16 (length buf₂)) invalid_packet_length
    assert (length buf₂ == 16)
    ok (first ∷ addrs, buf₂)

  -- The arms of `FrameBody::read`, each on the bytes behind the type with `buf` those with it.
  unfoldable pub read_arm : PackType → List ℕ → List ℕ → Outcome FrameBody
  read_arm PackType.connected_ping buf rest = do
    require 9 buf
    (client_timestamp, rest₁) ← get_u64 rest
    ok (connected_ping client_timestamp)
  read_arm PackType.connected_pong buf rest = do
    require 17 buf
    (client_timestamp, rest₁) ← get_u64 rest
    (server_timestamp, rest₂) ← get_u64 rest₁
    ok (connected_pong client_timestamp server_timestamp)
  read_arm PackType.connection_request buf rest = do
    require 18 buf
    (client_guid, rest₁) ← get_u64 rest
    (request_timestamp, rest₂) ← get_u64 rest₁
    (use_encryption, rest₃) ← get_u8 rest₂
    ok (connection_request client_guid request_timestamp (not (use_encryption == 0)))
  read_arm PackType.connection_request_accepted buf rest = do
    (client_address, rest₁) ← get_socket_addr rest
    require 2 rest₁
    (system_index, rest₂) ← get_u16 rest₁
    (system_addresses, rest₃) ← parse_system_addresses rest₂
    (request_timestamp, rest₄) ← get_u64 rest₃
    (accepted_timestamp, rest₅) ← get_u64 rest₄
    ok (
        connection_request_accepted client_address system_index system_addresses request_timestamp
          accepted_timestamp)
  read_arm PackType.new_incoming_connection buf rest = do
    (server_address, rest₁) ← get_socket_addr rest
    (system_addresses, rest₂) ← parse_system_addresses rest₁
    (request_timestamp, rest₃) ← get_u64 rest₂
    (accepted_timestamp, rest₄) ← get_u64 rest₃
    ok (
        new_incoming_connection server_address system_addresses request_timestamp
          accepted_timestamp)
  read_arm PackType.disconnect_notification buf rest = ok disconnect_notification
  read_arm PackType.detect_lost_connections buf rest = ok detect_lost_connections
  read_arm t buf rest = ok (user buf)

  -- What `FrameBody::read` does with the type of the first byte, if it is known.
  unfoldable pub read_identified : Outcome PackType → List ℕ → List ℕ → Outcome FrameBody
  read_identified (ok t) buf rest = read_arm t buf rest
  read_identified r buf rest = ok (user buf)

  -- `FrameBody::read`; no bytes panic at `buf.chunk()[0]`.
  unfoldable pub read : List ℕ → Outcome FrameBody
  read [] = panic
  read (id ∷ rest) = read_identified (from_u8 id) (id ∷ rest) rest

  abbrev pub put_addresses : List SocketAddr → List ℕ
  put_addresses [] = []
  put_addresses (a ∷ addrs) = put_socket_addr a ++ put_addresses addrs

  -- `FrameBody::write`
  unfoldable pub write : FrameBody → List ℕ
  write (connected_ping t) = to_u8 PackType.connected_ping ∷ put_u64 t
  write (connected_pong t u) = to_u8 PackType.connected_pong ∷ (put_u64 t ++ put_u64 u)
  write (connection_request g t e) =
      to_u8 PackType.connection_request ∷ (put_u64 g ++ (put_u64 t ++ put_u8 (if e then 1 else 0)))
  write (connection_request_accepted a i addrs t u) =
      to_u8 PackType.connection_request_accepted
      ∷ (put_socket_addr a ++ (put_u16 i ++ (put_addresses addrs ++ (put_u64 t ++ put_u64 u))))
  write (new_incoming_connection a addrs t u) =
      to_u8 PackType.new_incoming_connection
      ∷ (put_socket_addr a ++ (put_addresses addrs ++ (put_u64 t ++ put_u64 u)))
  write disconnect_notification = to_u8 PackType.disconnect_notification ∷ []
  write detect_lost_connections = to_u8 PackType.detect_lost_connections ∷ []
  write (user content) = content
