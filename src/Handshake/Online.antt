-- ===== src/Handshake/Online.antt =====
-- The connection as the online handlers of src/server/handler/online.rs and
-- src/client/handler/online.rs see it: frame bodies come in, and bodies go out by the link. A handler is
-- given the time that `timestamp()` reads with each body; the end of the stream and a poll that is
-- pending change nothing.
pub mod Server
pub mod Client
pub mod Run
pub mod Answers
use raknet_rs.Prelude.{ℕ, List, [], ◌∷◌, ◌++◌}
use raknet_rs.Packet.Unconnected
use raknet_rs.Packet.Body.{FrameBody}

-- What the handlers use of the shared link of src/link.rs: two queues.
pub record Link : Type 0 where
  pub unconnected : List Unconnected.Packet
  pub frame_body : List FrameBody

abbrev pub send_unconnected : Unconnected.Packet → Link → Link
send_unconnected p l = record l { unconnected = l.unconnected ++ (p ∷ []) }

abbrev pub send_frame_body : FrameBody → Link → Link
send_frame_body body l = record l { frame_body = l.frame_body ++ (body ∷ []) }
