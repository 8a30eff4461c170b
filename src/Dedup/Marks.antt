-- ===== src/Dedup/Marks.antt =====
-- The list of received marks, apart from its representation: reading it after one more mark.
use native.Mathlib.Nat.{sub-zero, suc-sub-suc}
use raknet_rs.Prelude.{
  ℕ, zero, suc, ◌+◌, ◌-◌, ◌≤◌, ◌<◌, ◌≡◌, refl, ap, Bool, true, false, List, [], ◌∷◌, ◌++◌, ◌||◌,
  ◌==◌, if◌then◌else◌, ltb, length, get_elem?, set, replicate, arith,
}
use raknet_rs.Dedup.{is_true}

-- Whether `n` counts as received, where `f` is the first index that the list speaks of.
abbrev pub marked : List Bool → ℕ → ℕ → Bool
marked marks f n = if ltb n f then true else is_true (get_elem? marks (n - f))

-- Entry `gap` of the list made `true`, behind as many `false` as that takes.
abbrev pub extended : List Bool → ℕ → List Bool
extended marks gap = (marks ++ replicate (gap - length marks) false) ++ (true ∷ [])

get-set :
    (marks : List Bool) (gap i : ℕ)
    → gap < length marks
    → is_true (get_elem? (set marks gap true) i) ≡ ((i == gap) || is_true (get_elem? marks i))
get-set [] gap i h = absurd (omega arith)
get-set (b ∷ marks) zero zero h = refl
get-set (b ∷ marks) zero (suc i) h = ground arith
get-set (b ∷ marks) (suc gap) zero h = ground arith
get-set (b ∷ marks) (suc gap) (suc i) h = ground (arith, get-set marks gap i)

get-replicate :
    (gap i : ℕ) → is_true (get_elem? (replicate gap false ++ (true ∷ [])) i) ≡ (i == gap)
get-replicate zero zero = ground arith
get-replicate zero (suc i) = ground arith
get-replicate (suc gap) zero = ground arith
get-replicate (suc gap) (suc i) = ground (arith, get-replicate gap i)

get-extended :
    (marks : List Bool) (gap i : ℕ)
    → length marks ≤ gap
    → is_true (get_elem? (extended marks gap) i) ≡ ((i == gap) || is_true (get_elem? marks i))
get-extended [] gap i h = rw sub-zero (ground (arith, get-replicate gap i))
get-extended (b ∷ marks) zero i h = absurd (omega arith)
get-extended (b ∷ marks) (suc gap) zero h = ground arith
get-extended (b ∷ marks) (suc gap) (suc i) h =
    rw (suc-sub-suc gap (length marks)) (ground (arith, get-extended marks gap i))

-- Both ways of marking index `s` add it to the received ones, and nothing else.
pub marked-set :
    (marks : List Bool) (f s n : ℕ)
    → f ≤ s
    → s - f < length marks
    → marked (set marks (s - f) true) f n ≡ ((n == s) || marked marks f n)
marked-set marks f s n h k = ground (arith, get-set marks (s - f) (n - f))

pub marked-extended :
    (marks : List Bool) (f s n : ℕ)
    → f ≤ s
    → length marks ≤ s - f
    → marked (extended marks (s - f)) f n ≡ ((n == s) || marked marks f n)
marked-extended marks f s n h k = ground (arith, get-extended marks (s - f) (n - f))

get-cons :
    (marks : List Bool) (k : ℕ)
    → is_true (get_elem? (true ∷ marks) k) ≡ ((k == 0) || is_true (get_elem? marks (k - 1)))
get-cons marks zero = refl
get-cons marks (suc k) = ground (arith, ap (λ (j : ℕ). is_true (get_elem? marks j)) (before k))
  where
    before : (k : ℕ) → suc k - 1 ≡ k
    before k = omega arith

-- Taking a received index off the front of the list changes no answer.
pub marked-pop : (marks : List Bool) (f n : ℕ) → marked (true ∷ marks) f n ≡ marked marks (f + 1) n
marked-pop marks f n =
    ground (arith, get-cons marks (n - f), ap (λ (k : ℕ). is_true (get_elem? marks k)) (before f n))
  where
    before : (f n : ℕ) → n - f - 1 ≡ n - (f + 1)
    before f n = omega arith
