-- ===== src/Reliable/Resend/Recorded.antt =====
-- `record`: what is sent is kept until it is acknowledged or expires.
use raknet_rs.Prelude.{
  ℕ, ◌+◌, ◌*◌, ◌≤◌, ◌≡◌, refl, ap, List, ◌∷◌, none, some, length, min, arith, eq→==,
}
use raknet_rs.Prelude.Outcome.{ok}
use raknet_rs.Packet.Frame.{Frame}
use raknet_rs.Estimator
use raknet_rs.Reliable.Resend.{
  ResendEntry, ResendMap, remove, insert, record_frames, max_penalty_dur,
}
use raknet_rs.Reliable.Resend.Count.{Tracked, entry_size, debug_assert-Tracked, remove-Full}

pub record_frames-Recorded :
    (now seq_num penalty : ℕ) (frames : List Frame) (r : ResendMap)
    → Tracked r
    → (remove seq_num r.reliable).0 ≡ none
    → (r' : ResendMap) × (entry : ResendEntry) × (record_frames now seq_num penalty frames r
        ≡ ok r')
      × Tracked r'
      × ((remove seq_num r'.reliable).0 ≡ some entry)
      × (entry.frames ≡ some frames)
      × (r'.inflight ≡ r.inflight + length frames)
      × (now + Estimator.rto r.estimator ≤ entry.expired_at)
      × (entry.expired_at ≤ now + Estimator.rto r.estimator + max_penalty_dur)
      × (r'.reliable ≡ insert seq_num entry r.reliable)
unfolding record_frames
record_frames-Recorded now seq_num penalty frames r t free =
    let (g, gs, n) = remove-Full seq_num r.reliable t.full in
    let rto = Estimator.rto r.estimator in
    let entry : ResendEntry = record {
      penalty = penalty;
      frames = some frames;
      send_at = now;
      expired_at = now + rto + min (rto * penalty) max_penalty_dur;
    } in
    let r' : ResendMap = record r {
      inflight = r.inflight + length frames;
      reliable = insert seq_num entry r.reliable;
    } in
    let t' : Tracked r' = record {
      full = (refl, gs);
      counted = omega (arith, t.counted, n, ap entry_size free);
    } in
    (
      r',
      entry,
      debug_assert-Tracked r' t',
      t',
      found entry,
      refl,
      refl,
      omega arith,
      omega arith,
      refl,
    )
  where
    found :
        (entry : ResendEntry)
        → (remove seq_num ((seq_num, entry) ∷ (remove seq_num r.reliable).1)).0 ≡ some entry
    found entry = unfold remove in rw (eq→== seq_num seq_num refl) refl

-- The frames of a datagram whose number is not in the map are kept under it, without a panic, and are
-- counted as in flight; they expire a timeout from now, or later by a penalty of 30 seconds at most.
pub record_frames-Tracked :
    (now seq_num penalty : ℕ) (frames : List Frame) (r : ResendMap)
    → Tracked r
    → (remove seq_num r.reliable).0 ≡ none
    → (r' : ResendMap) × (entry : ResendEntry) × (record_frames now seq_num penalty frames r
        ≡ ok r')
      × Tracked r'
      × ((remove seq_num r'.reliable).0 ≡ some entry)
      × (entry.frames ≡ some frames)
      × (r'.inflight ≡ r.inflight + length frames)
      × (now + Estimator.rto r.estimator ≤ entry.expired_at)
      × (entry.expired_at ≤ now + Estimator.rto r.estimator + 30000000000)
record_frames-Tracked now seq_num penalty frames r t free =
    let (r', entry, e, t', found, g, n, lo, hi, m) =
      record_frames-Recorded now seq_num penalty frames r t free in
    (r', entry, e, t', found, g, n, lo, hi)
