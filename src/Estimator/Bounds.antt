-- ===== src/Estimator/Bounds.antt =====
-- The estimates stay within the samples, and the timeout is at least the timer's granularity above them.
use raknet_rs.Prelude.{
  ℕ, ◌+◌, ◌*◌, ◌≤◌, Option, none, some, List, [], ◌∷◌, All, ltb, max, arith, Bool-cases, inl, inr,
}
use raknet_rs.Packet.Buf.{Holds}
use raknet_rs.Estimator.{Estimator, new, rtt, rto, clear, smooth, update, from_millis, unwrap_or}

-- A sample of the round trip, or a reset after a timeout.
pub data Event : Type 0 where
  sampled : ℕ → Event
  cleared : Event

abbrev pub apply : Event → Estimator → Estimator
apply (sampled sample) e = update sample e
apply cleared e = clear e

abbrev pub run : List Event → Estimator → Estimator
run [] e = e
run (x ∷ xs) e = run xs (apply x e)

abbrev pub Between : ℕ → ℕ → ℕ → Type 0
Between lo hi x = (lo ≤ x) × (x ≤ hi)

abbrev pub Sampled : ℕ → ℕ → Event → Type 0
Sampled lo hi (sampled x) = Between lo hi x
Sampled lo hi cleared = Unit

record Within (lo hi : ℕ) (e : Estimator) : Type 0 where
  latest : Between lo hi e.latest
  smoothed : Holds (Between lo hi) e.smoothed
  var : e.var ≤ hi

smooth-Within :
    (lo hi sample : ℕ) (s : Option ℕ) (e : Estimator)
    → Between lo hi sample
    → Holds (Between lo hi) s
    → e.var ≤ hi
    → Within lo hi (smooth s sample e)
unfolding smooth
smooth-Within lo hi sample none e (l, h) b v = record {
  latest = (l, h);
  smoothed = (l, h);
  var = omega arith;
}
smooth-Within lo hi sample (some s) e (l, h) (k, m) v = record {
  latest = (l, h);
  smoothed = (omega arith, omega arith);
  var = elim (Bool-cases (ltb sample s)) [
    | inl d ↦ rw d (omega arith)
    | inr d ↦ rw d (omega arith)
  ];
}

apply-Within :
    (lo hi : ℕ) (x : Event) (e : Estimator)
    → Sampled lo hi x
    → Within lo hi e
    → Within lo hi (apply x e)
unfolding update clear
apply-Within lo hi (sampled sample) e b w =
    smooth-Within lo hi sample e.smoothed e b w.smoothed w.var
apply-Within lo hi cleared e b w = record { latest = w.latest; smoothed = tt; var = w.var }

run-Within :
    (lo hi : ℕ) (xs : List Event) (e : Estimator)
    → All (Sampled lo hi) xs
    → Within lo hi e
    → Within lo hi (run xs e)
run-Within lo hi [] e b w = w
run-Within lo hi (x ∷ xs) e (b, bs) w =
    run-Within lo hi xs (apply x e) bs (apply-Within lo hi x e b w)

rtt-Between : (lo hi : ℕ) (e : Estimator) → Within lo hi e → Between lo hi (rtt e)
unfolding rtt
rtt-Between lo hi e w = either e.smoothed w.smoothed
  where
    either : (s : Option ℕ) → Holds (Between lo hi) s → Between lo hi (unwrap_or s e.latest)
    either none h = w.latest
    either (some s) h = h

-- Where all samples, and the 500 milliseconds to begin with, lie between two durations, the estimated
-- round trip stays between them after any samples and resets; the timeout is at least a millisecond
-- longer, and at most by a millisecond or four times the upper one.
pub run-rto :
    (lo hi : ℕ) (xs : List Event)
    → Between lo hi (from_millis 500)
    → All (Sampled lo hi) xs
    → let e = run xs new in
      Between lo hi (rtt e)
      × (rtt e + from_millis 1 ≤ rto e)
      × (rto e ≤ rtt e + max (from_millis 1) (4 * hi))
unfolding rto
run-rto lo hi xs i b =
    let w = run-Within lo hi xs new b (record { latest = i; smoothed = tt; var = omega arith }) in
    (rtt-Between lo hi (run xs new) w, omega arith, omega (arith, w.var))
