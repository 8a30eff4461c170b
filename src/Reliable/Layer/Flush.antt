-- ===== src/Reliable/Layer/Flush.antt =====
-- `try_empty` of `ReliableLayer`, in src/reliable.rs: the loop that flushes. `at` gives the time at which
-- the frame set of a number is kept for resending.
use raknet_rs.Prelude.{
  ℕ, zero, suc, ◌+◌, Bool, true, false, if◌then◌else◌, Option, none, some, ◌==◌, length,
}
use raknet_rs.Prelude.Outcome.{Outcome, ok, stuck, ◌>>=◌}
use raknet_rs.Seq
use raknet_rs.State.{Poll, pending, done, failed}
use raknet_rs.Packet.Frame.{is_nil}
use raknet_rs.Packet.Ack.{AckOrNack, total_cnt}
use raknet_rs.Packet.Unconnected
use raknet_rs.Packet.Connected
use raknet_rs.Packet.Dispatch.{Packet, unconnected, connected}
use raknet_rs.Flush.{FlushStrategy, Emptiness, check_flushed, is_enabled, mark_all}
use raknet_rs.Link.{
  TransferLink, process_outgoing_ack, process_outgoing_nack, next_unconnected, outgoing_ack_empty,
  outgoing_nack_empty, unconnected_empty,
}
use raknet_rs.Reliable
use raknet_rs.Reliable.{Heap, SendBuffer, Choice, pop, mean}
use raknet_rs.Reliable.Resend.{record_frames}
use raknet_rs.Reliable.Layer.{PacketSink, ReliableLayer, drain_inflight}

-- What goes on in a loop, or leaves the function with an answer.
pub data Flow (S : Type 0) : Type 0 where
  on : S → Flow S
  out : Poll → S → Flow S

abbrev pub and_then : {S : Type 0} → Outcome (Flow S) → (S → Outcome (Flow S)) → Outcome (Flow S)
and_then m k = m >>= λ flow. elim flow [ on s ↦ k s | out poll s ↦ ok (out poll s) ]

abbrev pub resume : {S : Type 0} → (S → Outcome (Poll × S)) → Flow S → Outcome (Poll × S)
resume k (on s) = k s
resume k (out poll s) = ok (poll, s)

module _ {H F : Type 0} (heap : Heap H) (sink : PacketSink F) where
  -- The variables of the loop of `try_empty`.
  pub record Flushing : Type 0 where
    pub layer : ReliableLayer F H
    pub ack_cnt : ℕ
    pub nack_cnt : ℕ
    pub pack_cnt : ℕ

  abbrev pub with_frame : Flushing → F → Flushing
  with_frame s frame = record s { layer = record s.layer { frame = frame } }

  -- `ready!(this.frame.poll_ready(cx))?`
  abbrev pub ready : Flushing → Poll × F → Flow Flushing
  ready s (done, frame) = on (with_frame s frame)
  ready s (pending, frame) = out pending (with_frame s frame)
  ready s (failed, frame) = out failed (with_frame s frame)

  abbrev pub await : Flushing → Outcome (Flow Flushing)
  await s = ok (ready s (sink.poll_ready s.layer.frame))

  -- `start_send(..)?`
  abbrev pub sent : Flushing → Bool × F → Flow Flushing
  sent s (true, frame) = on (with_frame s frame)
  sent s (false, frame) = out failed (with_frame s frame)

  abbrev pub start_packet : Packet → Flushing → Outcome (Flow Flushing)
  start_packet p s = ok (sent s (sink.start_send p s.layer.peer.addr s.layer.frame))

  abbrev pub with_link : Flushing → TransferLink → Flushing
  with_link s link = record s { layer = record s.layer { link = link } }

  -- 1. and 2., the outgoing acks and nacks.
  unfoldable pub send_ack : Option AckOrNack → Flushing → Outcome (Flow Flushing)
  send_ack none s = ok (on s)
  send_ack (some a) s = do
    cnt ← total_cnt a
    start_packet (connected (Connected.ack a)) (record s { ack_cnt = s.ack_cnt + cnt })

  unfoldable pub empty_ack : FlushStrategy → Flushing → Outcome (Flow Flushing)
  empty_ack strategy s =
      if is_enabled strategy.ack_tag
      then (do
        (packet, link) ← process_outgoing_ack s.layer.peer.mtu s.layer.link
        send_ack packet (with_link s link))
      else ok (on s)

  unfoldable pub send_nack : Option AckOrNack → Flushing → Outcome (Flow Flushing)
  send_nack none s = ok (on s)
  send_nack (some a) s = do
    cnt ← total_cnt a
    start_packet (connected (Connected.nack a)) (record s { nack_cnt = s.nack_cnt + cnt })

  unfoldable pub empty_nack : FlushStrategy → Flushing → Outcome (Flow Flushing)
  empty_nack strategy s =
      if is_enabled strategy.nack_tag
      then (do
        (packet, link) ← process_outgoing_nack s.layer.peer.mtu s.layer.link
        send_nack packet (with_link s link))
      else ok (on s)

  -- 3. One unconnected packet; it is counted after it is sent.
  abbrev pub counted : Flow Flushing → Flow Flushing
  counted (on s) = on (record s { pack_cnt = s.pack_cnt + 1 })
  counted (out poll s) = out poll s

  unfoldable pub send_unconnected : Option Unconnected.Packet → Flushing → Outcome (Flow Flushing)
  send_unconnected none s = ok (on s)
  send_unconnected (some p) s = do flow ← start_packet (unconnected p) s; ok (counted flow)

  unfoldable pub empty_unconnected : Flushing → Outcome (Flow Flushing)
  empty_unconnected s =
      let (packet, link) = next_unconnected s.layer.link in
      send_unconnected packet (with_link s link)

  -- 4. A frame set that has been sent is kept for resending where it has a reliable frame.
  unfoldable pub keep : (ℕ → ℕ) → Choice → ReliableLayer F H → Outcome (ReliableLayer F H)
  keep at c l = do
    let index = l.seq_num_write_index
    resend ←
        if c.reliable
        then record_frames (at index) index (mean heap c) c.frames l.resend
        else ok l.resend
    next ← Seq.add index 1
    ok (record l { seq_num_write_index = next; resend = resend })

  unfoldable pub send_frames : (ℕ → ℕ) → Choice → Flushing → Outcome (Flow Flushing)
  send_frames at c s =
      and_then
        (start_packet
          (connected (
            Connected.frame_set (record { seq_num = s.layer.seq_num_write_index; set = c.frames })))
          s)
        (λ s'. do
          layer ← keep at c s'.layer
          ok (on (record s' { layer = layer; pack_cnt = s'.pack_cnt + 1 })))

  unfoldable pub empty_frames : (ℕ → ℕ) → Flushing → Outcome (Flow Flushing)
  empty_frames at s = do
    (c, buf) ← pop heap s.layer.peer.mtu s.layer.buf
    let s' : Flushing = record s { layer = record s.layer { buf = buf } }
    if is_nil c.frames then ok (on s') else send_frames at c s'

  -- The steps behind `if !strategy.flush_pack() { continue; }`.
  unfoldable pub empty_packs : FlushStrategy → (ℕ → ℕ) → Flushing → Outcome (Flow Flushing)
  empty_packs strategy at s =
      if is_enabled strategy.pack_tag
      then and_then (await s)
          (λ s₁. and_then (empty_unconnected s₁) (λ s₂. and_then (await s₂) (empty_frames at)))
      else ok (on s)

  -- A round of the loop.
  unfoldable pub round : FlushStrategy → (ℕ → ℕ) → Flushing → Outcome (Flow Flushing)
  round strategy at s = and_then (await s) (λ s₁. and_then (empty_ack strategy s₁) (λ s₂.
      and_then (await s₂) (λ s₃. and_then (empty_nack strategy s₃) (empty_packs strategy at))))

  abbrev pub emptiness : ReliableLayer F H → Emptiness
  emptiness l = record {
    outgoing_ack = outgoing_ack_empty l.link;
    outgoing_nack = outgoing_nack_empty l.link;
    unconnected = unconnected_empty l.link;
    buf = Reliable.len heap l.buf == 0;
  }

  -- The loop, of `fuel` rounds at most.
  unfoldable pub flush_loop : ℕ → FlushStrategy → (ℕ → ℕ) → Flushing → Outcome (Poll × Flushing)
  flush_loop zero strategy at s = stuck
  flush_loop (suc fuel) strategy at s =
      let more = (round strategy at s) >>= resume (λ s'. flush_loop fuel strategy at s') in
      if check_flushed strategy (emptiness s.layer) then ok (done, s) else more

  -- What waits to be sent: a round sends one of them at least.
  abbrev pub backlog : ReliableLayer F H → ℕ
  backlog l =
      length l.link.outgoing_ack
      + length l.link.outgoing_nack
      + length l.link.unconnected
      + Reliable.len heap l.buf

  -- The counts are marked in the strategy where the loop has ended by its test.
  abbrev pub finish : FlushStrategy → Poll × Flushing → Poll × ReliableLayer F H × FlushStrategy
  finish strategy (done, s) = (done, s.layer, mark_all s.ack_cnt s.nack_cnt s.pack_cnt strategy)
  finish strategy (pending, s) = (pending, s.layer, strategy)
  finish strategy (failed, s) = (failed, s.layer, strategy)

  -- `try_empty`
  unfoldable pub try_empty :
      FlushStrategy
      → ℕ
      → (ℕ → ℕ)
      → ReliableLayer F H
      → Outcome (Poll × ReliableLayer F H × FlushStrategy)
  try_empty strategy now at l = do
    l' ← drain_inflight heap sink now l
    answer ←
        flush_loop (suc (backlog l')) strategy at
          (record { layer = l'; ack_cnt = 0; nack_cnt = 0; pack_cnt = 0 })
    ok (finish strategy answer)
