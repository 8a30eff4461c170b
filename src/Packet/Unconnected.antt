-- ===== src/Packet/Unconnected.antt =====
-- The packets of src/packet/unconnected.rs, which peers send before there is a connection. A timestamp
-- is the 64 bits of its integer; the field `magic`, which is `()`, is left out.
pub mod RoundTrip
pub mod Safety
use raknet_rs.Prelude.{
  ℕ, ◌+◌, ◌%◌, ◌^◌, Bool, true, false, not, List, [], ◌∷◌, ◌++◌, if◌then◌else◌, length, ◌==◌,
}
use raknet_rs.Prelude.Outcome.{invalid_packet_type, Outcome, ok, err, ◌>>=◌, ◌>>◌}
use raknet_rs.Packet.Buf.{Buf, get_u8, get_u16, put_u8, put_u16, require}
use raknet_rs.Packet.Addr.{magic, get_checked_magic, SocketAddr, get_socket_addr, put_socket_addr}
use raknet_rs.Packet.PackType
use raknet_rs.Packet.PackType.{PackType, to_u8}

pub data Packet : Type 0 where
  unconnected_ping : (send_timestamp client_guid : ℕ) → Packet
  unconnected_pong : (send_timestamp server_guid : ℕ) → (content : List ℕ) → Packet
  open_connection_request1 : (protocol_version mtu : ℕ) → Packet
  open_connection_reply1 : (server_guid : ℕ) → (use_encryption : Bool) → (mtu : ℕ) → Packet
  open_connection_request2 : (server_address : SocketAddr) → (mtu client_guid : ℕ) → Packet
  open_connection_reply2 :
      (server_guid : ℕ)
      → (client_address : SocketAddr) → (mtu : ℕ) → (encryption_enabled : Bool) → Packet
  incompatible_protocol : (server_protocol server_guid : ℕ) → Packet
  already_connected : (server_guid : ℕ) → Packet
  connection_request_failed : (server_guid : ℕ) → Packet

abbrev pub pack_type : Packet → PackType
pack_type (unconnected_ping t g) = PackType.unconnected_ping1
pack_type (unconnected_pong t g c) = PackType.unconnected_pong
pack_type (open_connection_request1 v m) = PackType.open_connection_request1
pack_type (open_connection_reply1 g e m) = PackType.open_connection_reply1
pack_type (open_connection_request2 a m g) = PackType.open_connection_request2
pack_type (open_connection_reply2 g a m e) = PackType.open_connection_reply2
pack_type (incompatible_protocol p g) = PackType.incompatible_protocol_version
pack_type (already_connected g) = PackType.already_connected
pack_type (connection_request_failed g) = PackType.connection_request_failed

module _ ⦃b : Buf⦄ where
  -- `get_i64` and `get_u64`, and back.
  abbrev pub get_u64 : List ℕ → Outcome (ℕ × List ℕ)
  get_u64 = b.get_uint 8

  abbrev pub put_u64 : ℕ → List ℕ
  put_u64 = b.put_uint 8

  unfoldable pub read_unconnected_ping : List ℕ → Outcome (Packet × List ℕ)
  read_unconnected_ping buf = do
    (send_timestamp, buf₁) ← get_u64 buf
    buf₂ ← get_checked_magic buf₁
    (client_guid, buf₃) ← get_u64 buf₂
    ok (unconnected_ping send_timestamp client_guid, buf₃)

  unfoldable pub read_unconnected_pong : List ℕ → Outcome (Packet × List ℕ)
  read_unconnected_pong buf = do
    (send_timestamp, buf₁) ← get_u64 buf
    (server_guid, buf₂) ← get_u64 buf₁
    buf₃ ← get_checked_magic buf₂
    (len, buf₄) ← get_u16 buf₃
    require len buf₄
    (content, buf₅) ← b.split_to len buf₄
    ok (unconnected_pong send_timestamp server_guid content, buf₅)

  unfoldable pub read_open_connection_request1 : List ℕ → Outcome (Packet × List ℕ)
  read_open_connection_request1 buf = do
    buf₁ ← get_checked_magic buf
    (protocol_version, buf₂) ← get_u8 buf₁
    (mtu, buf₃) ← get_u16 buf₂
    ok (open_connection_request1 protocol_version mtu, buf₃)

  unfoldable pub read_open_connection_reply1 : List ℕ → Outcome (Packet × List ℕ)
  read_open_connection_reply1 buf = do
    buf₁ ← get_checked_magic buf
    (server_guid, buf₂) ← get_u64 buf₁
    (use_encryption, buf₃) ← get_u8 buf₂
    (mtu, buf₄) ← get_u16 buf₃
    ok (open_connection_reply1 server_guid (not (use_encryption == 0)) mtu, buf₄)

  unfoldable pub read_open_connection_request2 : List ℕ → Outcome (Packet × List ℕ)
  read_open_connection_request2 buf = do
    require 16 buf
    buf₁ ← get_checked_magic buf
    (server_address, buf₂) ← get_socket_addr buf₁
    require 2 buf₂
    (mtu, buf₃) ← get_u16 buf₂
    require 8 buf₃
    (client_guid, buf₄) ← get_u64 buf₃
    ok (open_connection_request2 server_address mtu client_guid, buf₄)

  unfoldable pub read_open_connection_reply2 : List ℕ → Outcome (Packet × List ℕ)
  read_open_connection_reply2 buf = do
    require 16 buf
    buf₁ ← get_checked_magic buf
    require 8 buf₁
    (server_guid, buf₂) ← get_u64 buf₁
    (client_address, buf₃) ← get_socket_addr buf₂
    require 2 buf₃
    (mtu, buf₄) ← get_u16 buf₃
    require 1 buf₄
    (encryption_enabled, buf₅) ← get_u8 buf₄
    ok (open_connection_reply2 server_guid client_address mtu (not (encryption_enabled == 0)), buf₅)

  unfoldable pub read_incompatible_protocol : List ℕ → Outcome (Packet × List ℕ)
  read_incompatible_protocol buf = do
    (server_protocol, buf₁) ← get_u8 buf
    buf₂ ← get_checked_magic buf₁
    (server_guid, buf₃) ← get_u64 buf₂
    ok (incompatible_protocol server_protocol server_guid, buf₃)

  unfoldable pub read_already_connected : List ℕ → Outcome (Packet × List ℕ)
  read_already_connected buf = do
    buf₁ ← get_checked_magic buf
    (server_guid, buf₂) ← get_u64 buf₁
    ok (already_connected server_guid, buf₂)

  unfoldable pub read_connection_request_failed : List ℕ → Outcome (Packet × List ℕ)
  read_connection_request_failed buf = do
    buf₁ ← get_checked_magic buf
    (server_guid, buf₂) ← get_u64 buf₁
    ok (connection_request_failed server_guid, buf₂)

  -- `write`, behind the type: an encryption flag is always written as 0.
  unfoldable pub write_fields : Packet → List ℕ
  write_fields (unconnected_ping t g) = put_u64 t ++ (magic ++ put_u64 g)
  write_fields (unconnected_pong t g content) =
      put_u64 t ++ (put_u64 g ++ (magic ++ (put_u16 (length content % 2 ^ 16) ++ content)))
  write_fields (open_connection_request1 v mtu) = magic ++ (put_u8 v ++ put_u16 mtu)
  write_fields (open_connection_reply1 g e mtu) = magic ++ (put_u64 g ++ (put_u8 0 ++ put_u16 mtu))
  write_fields (open_connection_request2 a mtu g) =
      magic ++ (put_socket_addr a ++ (put_u16 mtu ++ put_u64 g))
  write_fields (open_connection_reply2 g a mtu e) =
      magic ++ (put_u64 g ++ (put_socket_addr a ++ (put_u16 mtu ++ put_u8 0)))
  write_fields (incompatible_protocol p g) = put_u8 p ++ (magic ++ put_u64 g)
  write_fields (already_connected g) = magic ++ put_u64 g
  write_fields (connection_request_failed g) = magic ++ put_u64 g

  -- `write`
  unfoldable pub write : Packet → List ℕ
  write p = put_u8 (to_u8 (pack_type p)) ++ write_fields p

  -- The arms of `Packet::read` of src/packet/mod.rs for these packets, each with its `read_buf!`.
  unfoldable pub read : PackType → List ℕ → Outcome (Packet × List ℕ)
  read PackType.unconnected_ping1 buf = do require 32 buf; read_unconnected_ping buf
  read PackType.unconnected_ping2 buf = do require 32 buf; read_unconnected_ping buf
  read PackType.unconnected_pong buf = do require 34 buf; read_unconnected_pong buf
  read PackType.open_connection_request1 buf = do require 19 buf; read_open_connection_request1 buf
  read PackType.open_connection_reply1 buf = do require 27 buf; read_open_connection_reply1 buf
  read PackType.incompatible_protocol_version buf = do
    require 25 buf
    read_incompatible_protocol buf
  read PackType.already_connected buf = do require 24 buf; read_already_connected buf
  read PackType.connection_request_failed buf = do
    require 24 buf
    read_connection_request_failed buf
  read PackType.open_connection_request2 buf = read_open_connection_request2 buf
  read PackType.open_connection_reply2 buf = read_open_connection_reply2 buf
  read t buf = err (invalid_packet_type (to_u8 t))
