-- ===== src/Packet/Dispatch.antt =====
-- `Packet` of src/packet/mod.rs: a datagram is told apart by its first byte.
pub mod Laws
use raknet_rs.Prelude.{ℕ, Bool, true, false, List, if◌then◌else◌}
use raknet_rs.Prelude.Outcome.{Outcome, ok, ◌>>=◌, ◌>>◌}
use raknet_rs.Packet.Buf.{Buf, get_u8, require}
use raknet_rs.Packet.PackType
use raknet_rs.Packet.PackType.{PackType, from_u8}
use raknet_rs.Packet.Unconnected
use raknet_rs.Packet.Connected

pub data Packet : Type 0 where
  unconnected : Unconnected.Packet → Packet
  connected : Connected.Packet → Packet

abbrev pub is_frame_set : PackType → Bool
is_frame_set PackType.frame_set = true
is_frame_set t = false

abbrev pub is_ack : PackType → Bool
is_ack PackType.ack = true
is_ack t = false

abbrev pub is_nack : PackType → Bool
is_nack PackType.nack = true
is_nack t = false

abbrev pub pack_type : Packet → PackType
pack_type (unconnected p) = Unconnected.pack_type p
pack_type (connected p) = Connected.pack_type p

module _ ⦃b : Buf⦄ where
  -- `write`
  unfoldable pub write : Packet → Outcome (List ℕ)
  write (unconnected p) = ok (Unconnected.write p)
  write (connected p) = Connected.write p

  -- The arms of `read` behind the type.
  unfoldable pub read_typed : PackType → List ℕ → Outcome (Packet × List ℕ)
  read_typed t buf =
      if is_frame_set t
      then (do (p, rest) ← Connected.read_set buf; ok (connected p, rest))
      else (if is_ack t
          then (do (p, rest) ← Connected.read_acked buf; ok (connected p, rest))
          else (if is_nack t
              then (do (p, rest) ← Connected.read_nacked buf; ok (connected p, rest))
              else (do (p, rest) ← Unconnected.read t buf; ok (unconnected p, rest))))

  -- `read`
  unfoldable pub read : List ℕ → Outcome (Packet × List ℕ)
  read buf = do require 1 buf; (id, buf₁) ← get_u8 buf; t ← from_u8 id; read_typed t buf₁
