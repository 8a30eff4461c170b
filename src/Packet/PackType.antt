-- ===== src/Packet/PackType.antt =====
-- `PackType` of src/packet/mod.rs: the first byte of a packet.
use raknet_rs.Prelude.{ℕ, ◌≡◌, refl, if◌then◌else◌, leb, ◌==◌}
use raknet_rs.Prelude.Outcome.{invalid_packet_type, Outcome, ok, err}

abbrev pub valid_flag : ℕ
valid_flag = 0b1000_0000

abbrev pub ack_flag : ℕ
ack_flag = 0b1100_0000

abbrev pub nack_flag : ℕ
nack_flag = 0b1010_0000

pub data PackType : Type 0 where
  connected_ping : PackType
  unconnected_ping1 : PackType
  unconnected_ping2 : PackType
  connected_pong : PackType
  detect_lost_connections : PackType
  open_connection_request1 : PackType
  open_connection_reply1 : PackType
  open_connection_request2 : PackType
  open_connection_reply2 : PackType
  connection_request : PackType
  remote_system_requires_public_key : PackType
  our_system_requires_security : PackType
  public_key_mismatch : PackType
  out_of_band_internal : PackType
  snd_receipt_acked : PackType
  snd_receipt_loss : PackType
  connection_request_accepted : PackType
  connection_request_failed : PackType
  already_connected : PackType
  new_incoming_connection : PackType
  no_free_incoming_connections : PackType
  disconnect_notification : PackType
  connection_lost : PackType
  connection_banned : PackType
  invalid_password : PackType
  incompatible_protocol_version : PackType
  ip_recently_connected : PackType
  timestamp : PackType
  unconnected_pong : PackType
  advertise_system : PackType
  ack : PackType
  nack : PackType
  frame_set : PackType

-- The discriminant, `as u8`.
abbrev pub to_u8 : PackType → ℕ
to_u8 connected_ping = 0x00
to_u8 unconnected_ping1 = 0x01
to_u8 unconnected_ping2 = 0x02
to_u8 connected_pong = 0x03
to_u8 detect_lost_connections = 0x04
to_u8 open_connection_request1 = 0x05
to_u8 open_connection_reply1 = 0x06
to_u8 open_connection_request2 = 0x07
to_u8 open_connection_reply2 = 0x08
to_u8 connection_request = 0x09
to_u8 remote_system_requires_public_key = 0x0a
to_u8 our_system_requires_security = 0x0b
to_u8 public_key_mismatch = 0x0c
to_u8 out_of_band_internal = 0x0d
to_u8 snd_receipt_acked = 0x0e
to_u8 snd_receipt_loss = 0x0f
to_u8 connection_request_accepted = 0x10
to_u8 connection_request_failed = 0x11
to_u8 already_connected = 0x12
to_u8 new_incoming_connection = 0x13
to_u8 no_free_incoming_connections = 0x14
to_u8 disconnect_notification = 0x15
to_u8 connection_lost = 0x16
to_u8 connection_banned = 0x17
to_u8 invalid_password = 0x18
to_u8 incompatible_protocol_version = 0x19
to_u8 ip_recently_connected = 0x1a
to_u8 timestamp = 0x1b
to_u8 unconnected_pong = 0x1c
to_u8 advertise_system = 0x1d
to_u8 ack = ack_flag
to_u8 nack = nack_flag
to_u8 frame_set = valid_flag

-- `from_u8`, arm by arm.
unfoldable pub from_u8 : ℕ → Outcome PackType
from_u8 id =
    if id == 0x00
    then ok connected_ping
    else (if id == 0x01
        then ok unconnected_ping1
        else (if id == 0x02
            then ok unconnected_ping2
            else (if id == 0x03
                then ok connected_pong
                else (if id == 0x04
                    then ok detect_lost_connections
                    else (if id == 0x05
                        then ok open_connection_request1
                        else (if id == 0x06
                            then ok open_connection_reply1
                            else (if id == 0x07
                                then ok open_connection_request2
                                else (if id == 0x08
                                    then ok open_connection_reply2
                                    else (if id == 0x09
                                        then ok connection_request
                                        else (if id == 0x10
                                            then ok connection_request_accepted
                                            else (if id == 0x0a
                                                then ok remote_system_requires_public_key
                                                else (if id == 0x0b
                                                    then ok our_system_requires_security
                                                    else (if id == 0x0c
                                                        then ok public_key_mismatch
                                                        else (if id == 0x0d
                                                            then ok out_of_band_internal
                                                            else (if id == 0x0e
                                                            then ok snd_receipt_acked
                                                            else (if id == 0x0f
                                                            then ok snd_receipt_loss
                                                            else (if id == 0x11
                                                            then ok connection_request_failed
                                                            else (if id == 0x12
                                                            then ok already_connected
                                                            else (if id == 0x13
                                                            then ok new_incoming_connection
                                                            else (if id == 0x14
                                                            then ok no_free_incoming_connections
                                                            else (if id == 0x15
                                                            then ok disconnect_notification
                                                            else (if id == 0x16
                                                            then ok connection_lost
                                                            else (if id == 0x17
                                                            then ok connection_banned
                                                            else (if id == 0x18
                                                            then ok invalid_password
                                                            else (if id == 0x19
                                                            then ok incompatible_protocol_version
                                                            else (if id == 0x1a
                                                            then ok ip_recently_connected
                                                            else (if id == 0x1b
                                                            then ok timestamp
                                                            else (if id == 0x1c
                                                            then ok unconnected_pong
                                                            else (if id == 0x1d
                                                            then ok advertise_system
                                                            else (if leb ack_flag id
                                                            then ok ack
                                                            else (if leb nack_flag id
                                                            then ok nack
                                                            else (if leb valid_flag id
                                                            then ok frame_set
                                                            else (err (
                                                            invalid_packet_type
                                                            id))))))))))))))))))))))))))))))))))

-- `from_u8` inverts the discriminants of all packet types.
pub from_u8-to_u8 : (p : PackType) → from_u8 (to_u8 p) ≡ ok p
unfolding from_u8
from_u8-to_u8 connected_ping = refl
from_u8-to_u8 unconnected_ping1 = refl
from_u8-to_u8 unconnected_ping2 = refl
from_u8-to_u8 connected_pong = refl
from_u8-to_u8 detect_lost_connections = refl
from_u8-to_u8 open_connection_request1 = refl
from_u8-to_u8 open_connection_reply1 = refl
from_u8-to_u8 open_connection_request2 = refl
from_u8-to_u8 open_connection_reply2 = refl
from_u8-to_u8 connection_request = refl
from_u8-to_u8 remote_system_requires_public_key = refl
from_u8-to_u8 our_system_requires_security = refl
from_u8-to_u8 public_key_mismatch = refl
from_u8-to_u8 out_of_band_internal = refl
from_u8-to_u8 snd_receipt_acked = refl
from_u8-to_u8 snd_receipt_loss = refl
from_u8-to_u8 connection_request_accepted = refl
from_u8-to_u8 connection_request_failed = refl
from_u8-to_u8 already_connected = refl
from_u8-to_u8 new_incoming_connection = refl
from_u8-to_u8 no_free_incoming_connections = refl
from_u8-to_u8 disconnect_notification = refl
from_u8-to_u8 connection_lost = refl
from_u8-to_u8 connection_banned = refl
from_u8-to_u8 invalid_password = refl
from_u8-to_u8 incompatible_protocol_version = refl
from_u8-to_u8 ip_recently_connected = refl
from_u8-to_u8 timestamp = refl
from_u8-to_u8 unconnected_pong = refl
from_u8-to_u8 advertise_system = refl
from_u8-to_u8 ack = refl
from_u8-to_u8 nack = refl
from_u8-to_u8 frame_set = refl
