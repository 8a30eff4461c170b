-- ===== src/Reliable/Layer/Close.antt =====
-- What closes a `ReliableLayer` of src/reliable.rs, and how it waits. A loop of `poll_close` reads the clock
-- in every round; `Clock` has what it reads in one.
use raknet_rs.Prelude.{
  ℕ, Bool, true, ◌&&◌, List, [], ◌∷◌, Option, none, some, if◌then◌else◌, leb, ◌==◌, min,
}
use raknet_rs.Prelude.Outcome.{Outcome, ok, stuck, ◌>>=◌, ◌>>◌, assert}
use raknet_rs.State.{Poll, pending, done, failed}
use raknet_rs.Packet.Frame.{Frame}
use raknet_rs.Codec.Fragment.{Priority}
use raknet_rs.Flush.{FlushStrategy}
use raknet_rs.Link.{
  outgoing_ack_empty, outgoing_nack_empty, unconnected_empty, turn_on_waking, turn_off_waking,
}
use raknet_rs.Reliable
use raknet_rs.Reliable.{Heap}
use raknet_rs.Reliable.Resend.{ResendMap, Entries, is_none_left}
use raknet_rs.Reliable.Layer.{PacketSink, ReliableLayer, drain_inflight}
use raknet_rs.Reliable.Layer.Flush.{Flow, on, out, try_empty}

-- `min_by_key(|(_, entry)| entry.expired_at)`
abbrev pub first_expired_at : Entries → Option ℕ
first_expired_at [] = none
first_expired_at ((k, entry) ∷ m) = some (earlier (first_expired_at m))
  where
    earlier : Option ℕ → ℕ
    earlier none = entry.expired_at
    earlier (some t) = min entry.expired_at t

abbrev pub expired : ℕ → Option ℕ → Bool
expired now none = true
expired now (some t) = leb t now

-- `poll_wait`: whether it is ready. If not, a timer wakes the task at the first time to resend.
unfoldable pub poll_wait : ℕ → ResendMap → Bool
poll_wait now r = expired now (first_expired_at r.reliable)

pub record Clock : Type 0 where
  pub now : ℕ
  pub at : ℕ → ℕ
  pub waiting : ℕ

module _ {H F : Type 0} (heap : Heap H) (sink : PacketSink F) where
  abbrev pub with_frame : ReliableLayer F H → F → ReliableLayer F H
  with_frame l frame = record l { frame = frame }

  -- `Sink::poll_ready` and `Sink::start_send`.
  abbrev pub poll_ready : ℕ → ReliableLayer F H → Outcome (Poll × ReliableLayer F H)
  poll_ready now l = do l' ← drain_inflight heap sink now l; ok (done, l')

  abbrev pub start_send : Priority → Frame → ReliableLayer F H → ReliableLayer F H
  start_send priority frame l = record l { buf = Reliable.send heap priority frame l.buf }

  abbrev pub forward : ReliableLayer F H → Poll × F → Poll × ReliableLayer F H
  forward l (poll, frame) = (poll, with_frame l frame)

  -- `ready!(self.try_empty(cx))?; self.frame.poll_flush(cx)`
  abbrev pub flush_below :
      Poll × ReliableLayer F H × FlushStrategy → Poll × ReliableLayer F H × FlushStrategy
  flush_below (done, l, strategy) =
      let (poll, l') = forward l (sink.poll_flush l.frame) in (poll, l', strategy)
  flush_below (pending, l, strategy) = (pending, l, strategy)
  flush_below (failed, l, strategy) = (failed, l, strategy)

  -- `Sink::poll_flush`
  unfoldable pub poll_flush :
      FlushStrategy
      → ℕ
      → (ℕ → ℕ)
      → ReliableLayer F H
      → Outcome (Poll × ReliableLayer F H × FlushStrategy)
  poll_flush strategy now at l = do
    answer ← try_empty heap sink strategy now at l
    ok (flush_below answer)

  abbrev pub nothing_to_send : ReliableLayer F H → Bool
  nothing_to_send l =
      (Reliable.len heap l.buf == 0)
      && (unconnected_empty l.link && (outgoing_ack_empty l.link && outgoing_nack_empty l.link))

  -- The end of `poll_close`, behind its loop.
  abbrev pub close_below : ReliableLayer F H → Poll × ReliableLayer F H
  close_below l =
      let l' : ReliableLayer F H = record l { link = turn_off_waking l.link } in
      forward l' (sink.poll_close l'.frame)

  -- A layer that is flushed closes when nothing is in flight; else it waits for that.
  abbrev pub close_or_wait : ℕ → ReliableLayer F H → Flow (ReliableLayer F H)
  close_or_wait now l =
      if is_none_left heap l.resend.reliable
      then (let (poll, l') = close_below l in out poll l')
      else (if poll_wait now l.resend then on l else out pending l)

  abbrev pub when_flushed : ℕ → ReliableLayer F H → Poll × F → Flow (ReliableLayer F H)
  when_flushed now l (done, frame) = close_or_wait now (with_frame l frame)
  when_flushed now l (pending, frame) = out pending (with_frame l frame)
  when_flushed now l (failed, frame) = out failed (with_frame l frame)

  -- What follows `try_empty` in a round.
  abbrev pub when_emptied :
      ℕ → Poll × ReliableLayer F H × FlushStrategy → Outcome (Flow (ReliableLayer F H))
  when_emptied now (done, l, strategy) = do
    assert (nothing_to_send l)
    ok (when_flushed now l (sink.poll_flush l.frame))
  when_emptied now (pending, l, strategy) = ok (out pending l)
  when_emptied now (failed, l, strategy) = ok (out failed l)

  -- A round of the loop of `poll_close`.
  unfoldable pub close_round :
      FlushStrategy → Clock → ReliableLayer F H → Outcome (Flow (ReliableLayer F H))
  close_round strategy clock l = do
    answer ← try_empty heap sink strategy clock.now clock.at l
    when_emptied clock.waiting answer

  unfoldable pub close_loop :
      FlushStrategy → List Clock → ReliableLayer F H → Outcome (Poll × ReliableLayer F H)
  close_loop strategy [] l = stuck
  close_loop strategy (clock ∷ clocks) l = close_round strategy clock l >>= λ flow. elim flow [
    | on l' ↦ close_loop strategy clocks l'
    | out poll l' ↦ ok (poll, l')
  ]

  -- `poll_close`
  unfoldable pub poll_close :
      FlushStrategy → List Clock → ReliableLayer F H → Outcome (Poll × ReliableLayer F H)
  poll_close strategy clocks l =
      close_loop strategy clocks (record l { link = turn_on_waking l.link })
