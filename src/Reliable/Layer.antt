-- ===== src/Reliable/Layer.antt =====
-- `ReliableLayer` of src/reliable.rs: what it keeps, and what it does with acknowledgements and
-- timeouts. The frame below is a parameter; the role, which is for logs only, is left out.
pub mod Flush
pub mod Inflight
pub mod Step
pub mod Acks
pub mod Frames
pub mod Round
pub mod Flushed
pub mod Close
pub mod Closing
use raknet_rs.Prelude.{ℕ, Bool, List, [], ◌∷◌}
use raknet_rs.Prelude.Outcome.{Outcome, ok, ◌>>=◌}
use raknet_rs.State.{Poll}
use raknet_rs.Packet.Addr.{SocketAddr}
use raknet_rs.Packet.Ack.{AckOrNack}
use raknet_rs.Packet.Dispatch.{Packet}
use raknet_rs.Handshake.Server.{Peer}
use raknet_rs.Link.{TransferLink, process_ack, process_nack}
use raknet_rs.Reliable
use raknet_rs.Reliable.{Heap, SendBuffer}
use raknet_rs.Reliable.Resend
use raknet_rs.Reliable.Resend.{ResendMap, on_ack, on_nack_into, process_stales}

-- `Sink<(Packet, SocketAddr), Error = io::Error>`; `start_send` answers whether it has taken the packet.
pub record PacketSink (F : Type 0) : Type 0 where
  pub poll_ready : F → Poll × F
  pub start_send : Packet → SocketAddr → F → Bool × F
  pub poll_flush : F → Poll × F
  pub poll_close : F → Poll × F

pub record ReliableLayer (F H : Type 0) : Type 0 where
  pub frame : F
  pub link : TransferLink
  pub seq_num_write_index : ℕ
  pub peer : Peer
  pub buf : SendBuffer H
  pub resend : ResendMap

-- `process_ack().for_each(..)`, each acknowledgement with the time of its receipt.
unfoldable pub for_each_ack : List (AckOrNack × ℕ) → ResendMap → Outcome ResendMap
for_each_ack [] r = ok r
for_each_ack ((ack, received_at) ∷ rest) r = do r' ← on_ack ack received_at r; for_each_ack rest r'

module _ {H : Type 0} (heap : Heap H) where
  -- `process_nack().for_each(..)`
  unfoldable pub for_each_nack :
      List AckOrNack → ResendMap → SendBuffer H → Outcome (ResendMap × SendBuffer H)
  for_each_nack [] r buf = ok (r, buf)
  for_each_nack (nack ∷ rest) r buf = do
    (r', buf') ← on_nack_into heap nack r buf
    for_each_nack rest r' buf'

  -- `process_inflight`, with what the queues of the link hold.
  unfoldable pub process_inflight :
      List (AckOrNack × ℕ)
      → List AckOrNack
      → ℕ
      → ResendMap
      → SendBuffer H
      → Outcome (ResendMap × SendBuffer H)
  process_inflight acks nacks now r buf = do
    r₁ ← for_each_ack acks r
    (r₂, buf₂) ← for_each_nack nacks r₁ buf
    process_stales heap now r₂ buf₂

  module _ {F : Type 0} (sink : PacketSink F) where
    -- `wrap_reliable`, at a time.
    abbrev pub wrap_reliable : F → TransferLink → Peer → ℕ → ReliableLayer F H
    wrap_reliable frame link peer now = record {
      frame = frame;
      link = link;
      seq_num_write_index = 0;
      peer = peer;
      buf = Reliable.new heap;
      resend = Resend.new now;
    }

    -- `process_inflight`, which empties both queues of the link.
    unfoldable pub drain_inflight : ℕ → ReliableLayer F H → Outcome (ReliableLayer F H)
    drain_inflight now l = do
      let (acks, link₁) = process_ack l.link
      let (nacks, link₂) = process_nack link₁
      (resend, buf) ← process_inflight acks nacks now l.resend l.buf
      ok (record l { link = link₂; buf = buf; resend = resend })
