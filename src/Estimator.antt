-- ===== src/Estimator.antt =====
-- `RFC6298Impl` of src/estimator.rs. A duration is its nanoseconds, and no sum of them overflows.
pub mod Bounds
use raknet_rs.Prelude.{ℕ, ◌+◌, ◌-◌, ◌*◌, ◌/◌, Option, none, some, ltb, if◌then◌else◌, max}

pub record Estimator : Type 0 where
  pub latest : ℕ
  pub smoothed : Option ℕ
  pub var : ℕ

-- `Duration::from_millis`
abbrev pub from_millis : ℕ → ℕ
from_millis ms = 1000000 * ms

-- `new`
abbrev pub new : Estimator
new = record { latest = from_millis 500; smoothed = none; var = 0 }

abbrev pub unwrap_or : Option ℕ → ℕ → ℕ
unwrap_or none d = d
unwrap_or (some x) d = x

unfoldable pub rtt : Estimator → ℕ
rtt e = unwrap_or e.smoothed e.latest

unfoldable pub rto : Estimator → ℕ
rto e = rtt e + max (from_millis 1) (4 * e.var)

unfoldable pub clear : Estimator → Estimator
clear e = record e { smoothed = none }

-- `update`, on what has been smoothed so far.
unfoldable pub smooth : Option ℕ → ℕ → Estimator → Estimator
smooth none sample e = record { latest = sample; smoothed = some sample; var = sample / 2 }
smooth (some smoothed) sample e = record {
  latest = sample;
  smoothed = some ((7 * smoothed + sample) / 8);
  var = (3 * e.var + (if ltb sample smoothed then smoothed - sample else sample - smoothed)) / 4;
}

unfoldable pub update : ℕ → Estimator → Estimator
update sample e = smooth e.smoothed sample e
