-- ===== src/Examples/Resends.antt =====
-- Frame sets in flight: acknowledged, asked for again, and timed out; and the round trip estimate.
use raknet_rs.Prelude.{ℕ, ◌+◌, ◌≤◌, ◌≡◌, refl, List, [], ◌∷◌, some, max, arith}
use raknet_rs.Prelude.Outcome.{ok}
use raknet_rs.Packet.Frame.{Frame}
use raknet_rs.Packet.Ack.{AckOrNack, range, single}
use raknet_rs.Estimator
use raknet_rs.Estimator.{from_millis, rtt, rto}
use raknet_rs.Estimator.Bounds.{sampled, cleared, run, Between, run-rto}
use raknet_rs.Reliable
use raknet_rs.Reliable.{PenaltyFrame, SendBuffer}
use raknet_rs.Reliable.Resend.{
  ResendEntry, ResendMap, remove, record_frames, on_nack_into, process_stales,
}
use raknet_rs.Reliable.Resend.Count.{Tracked}
use raknet_rs.Reliable.Resend.Named.{unnamed, Distinct}
use raknet_rs.Reliable.Resend.Inflight.{waiting, on_nack_into-Tracked}
use raknet_rs.Reliable.Resend.Recorded.{record_frames-Tracked}
use raknet_rs.Reliable.Resend.Stale.{fresh, process_stales-Tracked}
use raknet_rs.Reliable.Layer.{process_inflight}
use raknet_rs.Reliable.Layer.Inflight.{process_inflight-Tracked}
use raknet_rs.Examples.Heaps.{list_heap, small_frame}

run-rto_example :
    let e =
      run (sampled (from_millis 80) ∷ cleared ∷ sampled (from_millis 600) ∷ []) Estimator.new in
    Between (from_millis 50) (from_millis 900) (rtt e)
    × (rtt e + from_millis 1 ≤ rto e)
    × (rto e ≤ rtt e + max (from_millis 1) (from_millis 3600))
run-rto_example =
    run-rto (from_millis 50) (from_millis 900)
      (sampled (from_millis 80) ∷ cleared ∷ sampled (from_millis 600) ∷ [])
      (omega arith, omega arith)
      ((omega arith, omega arith), (tt, ((omega arith, omega arith), tt)))

abbrev entry : List Frame → ℕ → ResendEntry
entry frames expired_at = record {
  penalty = 1;
  frames = some frames;
  send_at = 0;
  expired_at = expired_at;
}

abbrev in_flight : ResendMap
in_flight = record {
  reliable =
      (3, entry (small_frame 0 ∷ []) 100)
      ∷ (5, entry (small_frame 1 ∷ small_frame 2 ∷ []) 500)
      ∷ [];
  inflight = 3;
  last_record_expired_at = 50;
  estimator = Estimator.new;
}

in_flight-Tracked : Tracked in_flight
in_flight-Tracked = record { full = (refl, (refl, tt)); counted = refl }

abbrev nothing_waits : SendBuffer (List PenaltyFrame)
nothing_waits = Reliable.new list_heap

abbrev fourth_to_ninth : AckOrNack
fourth_to_ninth = range 4 9 ∷ single 1 ∷ []

in_flight-Distinct : Distinct in_flight.reliable
in_flight-Distinct = (refl, (refl, tt))

on_nack_into-Tracked_example :
    (r' : ResendMap) × (buf' : SendBuffer (List PenaltyFrame)) × (on_nack_into list_heap
        fourth_to_ninth in_flight nothing_waits
      ≡ ok (r', buf'))
    × Tracked r'
    × (r'.reliable ≡ unnamed fourth_to_ninth in_flight.reliable)
    × Distinct r'.reliable
    × (r'.inflight + waiting list_heap buf' ≡ 3 + waiting list_heap nothing_waits)
on_nack_into-Tracked_example =
    on_nack_into-Tracked list_heap fourth_to_ninth in_flight nothing_waits in_flight-Tracked
      in_flight-Distinct

process_stales-Tracked_example :
    (r' : ResendMap) × (buf' : SendBuffer (List PenaltyFrame)) × (process_stales list_heap 200
        in_flight nothing_waits
      ≡ ok (r', buf'))
    × Tracked r'
    × (r'.reliable ≡ fresh 200 in_flight.reliable)
    × (r'.inflight + waiting list_heap buf' ≡ 3 + waiting list_heap nothing_waits)
process_stales-Tracked_example =
    process_stales-Tracked list_heap 200 in_flight nothing_waits in_flight-Tracked

record_frames-Tracked_example :
    (r' : ResendMap) × (e : ResendEntry) × (record_frames 70 6 2 (small_frame 3 ∷ []) in_flight
      ≡ ok r')
    × Tracked r'
    × ((remove 6 r'.reliable).0 ≡ some e)
    × (e.frames ≡ some (small_frame 3 ∷ []))
    × (r'.inflight ≡ 3 + 1)
    × (70 + rto Estimator.new ≤ e.expired_at)
    × (e.expired_at ≤ 70 + rto Estimator.new + 30000000000)
unfolding remove
record_frames-Tracked_example =
    record_frames-Tracked 70 6 2 (small_frame 3 ∷ []) in_flight in_flight-Tracked refl

-- A range that runs backwards stands for no number here.
process_inflight-Tracked_example :
    (r' : ResendMap) × (buf' : SendBuffer (List PenaltyFrame)) × (process_inflight list_heap
        ((single 3 ∷ [], 60) ∷ (range 9 2 ∷ [], 65) ∷ [])
        (fourth_to_ninth ∷ [])
        200
        in_flight
        nothing_waits
      ≡ ok (r', buf'))
    × Tracked r'
process_inflight-Tracked_example =
    process_inflight-Tracked list_heap ((single 3 ∷ [], 60) ∷ (range 9 2 ∷ [], 65) ∷ [])
      (fourth_to_ninth ∷ []) 200 in_flight nothing_waits in_flight-Tracked
