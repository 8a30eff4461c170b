-- ===== src/Reliable/Resend.antt =====
-- `ResendMap` of src/reliable.rs: the reliable frame sets that are not acknowledged yet. The hash map is an
-- association list, whose order stands for that of `retain`; the time that `Instant::now()` reads is an
-- argument, in nanoseconds. The role and the peer, which are for logs only, are left out.
pub mod Stored
pub mod Count
pub mod Named
pub mod Inflight
pub mod Recorded
pub mod Stale
use raknet_rs.Prelude.{
  ℕ, zero, suc, ◌+◌, ◌-◌, ◌*◌, Bool, true, false, ◌||◌, List, [], ◌∷◌, ◌++◌, map, if◌then◌else◌,
  Option, none, some, ltb, leb, ◌==◌, length, min,
}
use raknet_rs.Prelude.Outcome.{Outcome, ok, panic, ◌>>=◌, ◌>>◌, assert, checked_sub}
use raknet_rs.Packet.Frame.{Frame}
use raknet_rs.Packet.Ack.{AckOrNack, Record, range, single}
use raknet_rs.Estimator
use raknet_rs.Estimator.{Estimator, from_millis}
use raknet_rs.Reliable
use raknet_rs.Reliable.{PenaltyFrame, Heap, SendBuffer}

pub record ResendEntry : Type 0 where
  pub penalty : ℕ
  pub frames : Option (List Frame)
  pub send_at : ℕ
  pub expired_at : ℕ

abbrev pub Entries : Type 0
Entries = List (ℕ × ResendEntry)

pub record ResendMap : Type 0 where
  pub reliable : Entries
  pub inflight : ℕ
  pub last_record_expired_at : ℕ
  pub estimator : Estimator

-- `new`
abbrev pub new : ℕ → ResendMap
new now = record {
  reliable = [];
  inflight = 0;
  last_record_expired_at = now;
  estimator = Estimator.new;
}

-- `HashMap::remove` and `HashMap::insert`.
unfoldable pub remove : ℕ → Entries → Option ResendEntry × Entries
remove k [] = (none, [])
remove k ((j, entry) ∷ m) =
    let rest = remove k m in if j == k then (some entry, m) else (rest.0, (j, entry) ∷ rest.1)

abbrev pub insert : ℕ → ResendEntry → Entries → Entries
insert k entry m = (k, entry) ∷ (remove k m).1

-- `unwrap`
abbrev pub unwrap {ℓ} : {A : Type ℓ} → Option A → Outcome A
unwrap none = panic
unwrap (some x) = ok x

-- The sum of `debug_assert_inflight`, and that function.
unfoldable pub count_frames : Entries → Outcome ℕ
count_frames [] = ok 0
count_frames ((k, entry) ∷ m) = do
  frames ← unwrap entry.frames
  rest ← count_frames m
  ok (length frames + rest)

unfoldable pub debug_assert_inflight : ResendMap → Outcome ResendMap
debug_assert_inflight r = do
  inflight ← count_frames r.reliable
  assert (inflight == r.inflight)
  ok r

-- `MAX_PENALTY_DUR`, 30 seconds, and `MAX_SKIP_SCAN_RTO`, 3 seconds.
abbrev pub max_penalty_dur : ℕ
max_penalty_dur = from_millis 30000

abbrev pub max_skip_scan_rto : ℕ
max_skip_scan_rto = from_millis 3000

-- `record`
unfoldable pub record_frames : ℕ → ℕ → ℕ → List Frame → ResendMap → Outcome ResendMap
record_frames now seq_num penalty frames r =
    let rto = Estimator.rto r.estimator in
    let entry : ResendEntry = record {
      penalty = penalty;
      frames = some frames;
      send_at = now;
      expired_at = now + rto + min (rto * penalty) max_penalty_dur;
    } in
    debug_assert_inflight (record r {
      inflight = r.inflight + length frames;
      reliable = insert seq_num entry r.reliable;
    })

-- `start..=end`, of `count` numbers.
abbrev pub from : ℕ → ℕ → List ℕ
from start zero = []
from start (suc count) = start ∷ from (start + 1) count

abbrev pub numbers_of : Record → List ℕ
numbers_of (range start end) = from start (end + 1 - start)
numbers_of (single n) = n ∷ []

abbrev pub numbers : AckOrNack → List ℕ
numbers [] = []
numbers (r ∷ rs) = numbers_of r ++ numbers rs

-- What becomes of the entry of an acknowledged number, when it is taken out.
unfoldable pub acked : ℕ → Option ResendEntry → ResendMap → Outcome ResendMap
acked received_at none r = ok r
acked received_at (some entry) r = elim entry.frames [
  | none ↦ ok r
  | some frames ↦ (do
    inflight ← checked_sub r.inflight (length frames)
    ok (record r {
      inflight = inflight;
      estimator = Estimator.update (received_at - entry.send_at) r.estimator;
    }))
]

unfoldable pub ack_all : ℕ → List ℕ → ResendMap → Outcome ResendMap
ack_all received_at [] r = ok r
ack_all received_at (n ∷ ns) r = do
  r' ← acked received_at (remove n r.reliable).0 (record r { reliable = (remove n r.reliable).1 })
  ack_all received_at ns r'

-- `on_ack`
unfoldable pub on_ack : AckOrNack → ℕ → ResendMap → Outcome ResendMap
on_ack ack received_at r = do r' ← ack_all received_at (numbers ack) r; debug_assert_inflight r'

module _ {H : Type 0} (heap : Heap H) where
  -- The frames of an entry that is taken out go to the buffer, with its penalty.
  abbrev pub resend_frames : ResendEntry → List Frame → SendBuffer H → SendBuffer H
  resend_frames entry frames buf =
      Reliable.resend heap (map (λ f. record { penalty = entry.penalty; frame = f }) frames) buf

  unfoldable pub nacked :
      Option ResendEntry → ResendMap → SendBuffer H → Outcome (ResendMap × SendBuffer H)
  nacked none r buf = ok (r, buf)
  nacked (some entry) r buf = do
    frames ← unwrap entry.frames
    inflight ← checked_sub r.inflight (length frames)
    ok (record r { inflight = inflight }, resend_frames entry frames buf)

  unfoldable pub nack_all : List ℕ → ResendMap → SendBuffer H → Outcome (ResendMap × SendBuffer H)
  nack_all [] r buf = ok (r, buf)
  nack_all (n ∷ ns) r buf = do
    (r', buf') ←
        nacked (remove n r.reliable).0 (record r { reliable = (remove n r.reliable).1 }) buf
    nack_all ns r' buf'

  -- `on_nack_into`
  unfoldable pub on_nack_into :
      AckOrNack → ResendMap → SendBuffer H → Outcome (ResendMap × SendBuffer H)
  on_nack_into nack r buf = do
    (r', buf') ← nack_all (numbers nack) r buf
    checked ← debug_assert_inflight r'
    ok (checked, buf')

  -- What the `retain` of `process_stales` changes, over the entries.
  pub record Scan : Type 0 where
    pub kept : Entries
    pub inflight : ℕ
    pub min_expired_at : ℕ
    pub buf : SendBuffer H

  unfoldable pub retain : ℕ → Entries → ℕ → ℕ → SendBuffer H → Outcome Scan
  retain now [] inflight min_expired_at buf =
      ok (record { kept = []; inflight = inflight; min_expired_at = min_expired_at; buf = buf })
  retain now ((k, entry) ∷ m) inflight min_expired_at buf =
      let go_on = λ (i e : ℕ) (b : SendBuffer H). retain now m i e b in
      if leb entry.expired_at now
      then (do
        frames ← unwrap entry.frames
        inflight' ← checked_sub inflight (length frames)
        go_on inflight' min_expired_at (resend_frames entry frames buf))
      else (do
        s ← go_on inflight (min min_expired_at entry.expired_at) buf
        ok (record s { kept = (k, entry) ∷ s.kept }))

  abbrev pub is_none_left : Entries → Bool
  is_none_left [] = true
  is_none_left (x ∷ m) = false

  -- `process_stales`
  unfoldable pub process_stales : ℕ → ResendMap → SendBuffer H → Outcome (ResendMap × SendBuffer H)
  process_stales now r buf =
      if is_none_left r.reliable || ltb now r.last_record_expired_at then ok (r, buf) else (do
        s ←
            retain now r.reliable r.inflight
              (now + min (Estimator.rto r.estimator) max_skip_scan_rto) buf
        assert (leb now s.min_expired_at)
        checked ← debug_assert_inflight (record {
          reliable = s.kept;
          inflight = s.inflight;
          last_record_expired_at = s.min_expired_at;
          estimator =
              if ltb (length s.kept) (length r.reliable)
              then Estimator.clear r.estimator
              else r.estimator;
        })
        ok (checked, s.buf))
