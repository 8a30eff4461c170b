-- ===== src/Packet/Connected.antt =====
-- `connected::Packet` of src/packet/connected/mod.rs: what is sent once there is a connection.
use raknet_rs.Prelude.{ℕ, ◌+◌, Bool, List, [], ◌++◌, if◌then◌else◌}
use raknet_rs.Prelude.Outcome.{Outcome, ok, ◌>>=◌, index}
use raknet_rs.Packet.Buf.{Buf, put_u8}
use raknet_rs.Packet.Frame.{Frame, FrameSet, read_frame_set, write_frame_set}
use raknet_rs.Packet.Ack.{AckOrNack, read_ack, write_ack}
use raknet_rs.Packet.PackType.{PackType, valid_flag, ack_flag, nack_flag}

pub data Packet : Type 0 where
  frame_set : FrameSet (List Frame) → Packet
  ack : AckOrNack → Packet
  nack : AckOrNack → Packet

abbrev pub pack_type : Packet → PackType
pack_type (frame_set s) = PackType.frame_set
pack_type (ack a) = PackType.ack
pack_type (nack a) = PackType.nack

abbrev pub continuous_send_flag : ℕ
continuous_send_flag = 0b0000_1000

abbrev pub needs_b_and_as_flag : ℕ
needs_b_and_as_flag = 0b0000_0100

-- The first byte of a frame set, whose flags are different bits, by whether its first frame is parted.
abbrev pub frame_set_flag : Bool → ℕ
frame_set_flag parted =
    if parted
    then valid_flag + needs_b_and_as_flag + continuous_send_flag
    else valid_flag + needs_b_and_as_flag

module _ ⦃b : Buf⦄ where
  -- `write`; a frame set of no frames panics at `frame.set[0]`.
  unfoldable pub write : Packet → Outcome (List ℕ)
  write (frame_set s) = do
    first ← index s.set 0
    bytes ← write_frame_set s
    ok (put_u8 (frame_set_flag first.flags.parted) ++ bytes)
  write (ack a) = do bytes ← write_ack a; ok (put_u8 ack_flag ++ bytes)
  write (nack a) = do bytes ← write_ack a; ok (put_u8 nack_flag ++ bytes)

  -- `read_frame_set`, which reads all there is, `read_ack` and `read_nack`.
  unfoldable pub read_set : List ℕ → Outcome (Packet × List ℕ)
  read_set buf = do s ← read_frame_set buf; ok (frame_set s, [])

  unfoldable pub read_acked : List ℕ → Outcome (Packet × List ℕ)
  read_acked buf = do (a, rest) ← read_ack buf; ok (ack a, rest)

  unfoldable pub read_nacked : List ℕ → Outcome (Packet × List ℕ)
  read_nacked buf = do (a, rest) ← read_ack buf; ok (nack a, rest)
