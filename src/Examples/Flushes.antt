-- ===== src/Examples/Flushes.antt =====
-- A layer with acks, nacks, frames to send and frames in flight is flushed, and closed.
use raknet_rs.Prelude.{ℕ, ◌+◌, ◌≤◌, ◌≡◌, refl, true, List, [], ◌∷◌, ◌++◌, some, arith}
use raknet_rs.Prelude.Outcome.{ok}
use raknet_rs.State.{Poll, done}
use raknet_rs.Packet.Addr.{v4}
use raknet_rs.Packet.Frame.{frame_size, new_flags}
use raknet_rs.Packet.Reliability
use raknet_rs.Packet.Ack.{single}
use raknet_rs.Packet.Dispatch.{Packet}
use raknet_rs.Estimator
use raknet_rs.Flush
use raknet_rs.Flush.{FlushStrategy, check_flushed}
use raknet_rs.Link
use raknet_rs.Link.{TransferLink}
use raknet_rs.Handshake.Server.{Peer}
use raknet_rs.Reliable
use raknet_rs.Reliable.{PenaltyFrame, SendBuffer}
use raknet_rs.Reliable.Resend.{ResendMap}
use raknet_rs.Reliable.Resend.Count.{Tracked}
use raknet_rs.Reliable.Layer.{PacketSink, ReliableLayer}
use raknet_rs.Reliable.Layer.Flush.{Flow, emptiness, try_empty}
use raknet_rs.Reliable.Layer.Inflight.{Sound}
use raknet_rs.Reliable.Layer.Flushed.{try_empty-Flushed}
use raknet_rs.Reliable.Layer.Close
use raknet_rs.Reliable.Layer.Close.{Clock, close_round, close_loop}
use raknet_rs.Reliable.Layer.Closing.{
  AsksAll, Closed, Waiting, close_round-Closed, close_loop-Spins,
}
use raknet_rs.Examples.Heaps.{list_heap, small_frame}

-- A frame that takes every packet, and keeps them.
abbrev log : PacketSink (List Packet)
log = record {
  poll_ready = λ f. (done, f);
  start_send = λ p a f. (true, f ++ (p ∷ []));
  poll_flush = λ f. (done, f);
  poll_close = λ f. (done, f);
}

abbrev peer : Peer
peer = record { guid = 7; addr = v4 1 19132; mtu = 60 }

abbrev in_flight : ResendMap
in_flight = record {
  reliable =
      (3, record { penalty = 0; frames = some (small_frame 0 ∷ []); send_at = 0; expired_at = 100 })
      ∷ [];
  inflight = 1;
  last_record_expired_at = 500;
  estimator = Estimator.new;
}

abbrev busy : ReliableLayer (List Packet) (List PenaltyFrame)
busy = record {
  frame = [];
  link = record Link.new_arc {
    incoming_nack = (single 3 ∷ []) ∷ [];
    outgoing_ack = 4 ∷ 5 ∷ 9 ∷ [];
    outgoing_nack = 7 ∷ [];
  };
  seq_num_write_index = 10;
  peer = peer;
  buf = record (Reliable.new list_heap) { send_medium = small_frame 1 ∷ small_frame 2 ∷ [] };
  resend = in_flight;
}

in_flight-Tracked : Tracked in_flight
in_flight-Tracked = record { full = (refl, tt); counted = refl }

small_enough : (n : ℕ) → frame_size (small_frame n) ≤ 56
unfolding frame_size new_flags Reliability.size
small_enough n = omega arith

busy-Sound : Sound list_heap busy
busy-Sound = record {
  tracked = in_flight-Tracked;
  stored = ((omega arith, (small_enough 0, tt)), tt);
  fit = record {
    high = refl;
    medium = (small_enough 1, (small_enough 2, tt));
    low = refl;
    resend = refl;
  };
  acks = (omega arith, (omega arith, (omega arith, tt)));
  nacks = (omega arith, tt);
}

abbrev everything : FlushStrategy
everything = Flush.new true true true

try_empty-Flushed_example :
    (poll : Poll) × (l' : ReliableLayer (List Packet) (List PenaltyFrame))
    × (strategy' : FlushStrategy) × (try_empty list_heap log everything 20 (λ k. 20 + k) busy
        ≡ ok (poll, l', strategy'))
    × Sound list_heap l'
    × (poll ≡ done → check_flushed everything (emptiness list_heap log l') ≡ true)
unfolding Reliable.len
try_empty-Flushed_example =
    try_empty-Flushed list_heap log everything 20 (λ k. 20 + k) busy busy-Sound (omega arith)
      (omega arith)

everything-AsksAll : AsksAll everything
unfolding Flush.is_enabled
everything-AsksAll = record { ack = refl; nack = refl; pack = refl }

abbrev clock : Clock
clock = record { now = 200; at = λ k. 200; waiting = 210 }

close_round-Closed_example :
    (flow : Flow (ReliableLayer (List Packet) (List PenaltyFrame))) × (close_round list_heap log
        everything clock busy
      ≡ ok flow)
    × Closed list_heap log flow
unfolding Reliable.len
close_round-Closed_example =
    close_round-Closed list_heap log everything clock busy everything-AsksAll busy-Sound
      (omega arith) (omega arith)

-- What is in flight has expired at 100, and the scan is due at 500.
abbrev idle : ReliableLayer (List Packet) (List PenaltyFrame)
idle = record busy { link = Link.new_arc; buf = Reliable.new list_heap }

abbrev later : Clock
later = record { now = 490; at = λ k. 490; waiting = 490 }

idle-Waiting : Waiting list_heap log idle
unfolding Reliable.len
idle-Waiting = record { nothing = refl; acks = refl; nacks = refl; left = refl; flush = refl }

close_loop-Spins_example :
    close_loop list_heap log everything (clock ∷ later ∷ []) idle
    ≡ close_loop list_heap log everything [] idle
unfolding Close.poll_wait
close_loop-Spins_example =
    close_loop-Spins list_heap log everything (clock ∷ later ∷ []) [] idle idle-Waiting (
      record { early = omega arith; expired = refl },
      (record { early = omega arith; expired = refl }, tt),
    )
