-- ===== src/Reliable/Resend/Named.antt =====
-- The numbers that an acknowledgement names, by the bounds of its ranges, and the entries of a hash map,
-- whose keys are distinct, that it leaves.
use mathlib.Core.Path.{subst}
use raknet_rs.Prelude.{
  ℕ, zero, suc, ◌+◌, ◌-◌, ◌≡◌, refl, sym, ap, ◌∙◌, Bool, true, false, ◌&&◌, ◌||◌, not, List, [],
  ◌∷◌, ◌++◌, if◌then◌else◌, ltb, leb, ◌==◌, ==→eq, arith, Bool-cases, inl, inr,
}
use raknet_rs.Packet.Ack.{AckOrNack, Record, range, single}
use raknet_rs.Reliable.Resend.{Entries, remove, from, numbers_of, numbers}
use raknet_rs.Reliable.Resend.Count.{without}

-- A range names its start, its end, and what lies between them.
abbrev pub record_names : ℕ → Record → Bool
record_names n (range start end) = leb start n && leb n end
record_names n (single m) = n == m

abbrev pub names : ℕ → AckOrNack → Bool
names n [] = false
names n (r ∷ rs) = record_names n r || names n rs

-- The entries whose numbers pass a test.
abbrev pub keep : (ℕ → Bool) → Entries → Entries
keep p [] = []
keep p ((k, entry) ∷ m) = let rest = keep p m in if p k then (k, entry) ∷ rest else rest

-- The entries that the acknowledgement does not name.
abbrev pub unnamed : AckOrNack → Entries → Entries
unnamed ack m = keep (λ n. not (names n ack)) m

abbrev pub has : ℕ → Entries → Bool
has n [] = false
has n ((k, entry) ∷ m) = (k == n) || has n m

-- Each number has one entry at most, as in a hash map.
abbrev pub Distinct : Entries → Type 0
Distinct [] = Unit
Distinct ((k, entry) ∷ m) = (has k m ≡ false) × Distinct m

abbrev among : ℕ → List ℕ → Bool
among n [] = false
among n (x ∷ xs) = (n == x) || among n xs

among-append : (n : ℕ) (xs ys : List ℕ) → among n (xs ++ ys) ≡ (among n xs || among n ys)
among-append n [] ys = refl
among-append n (x ∷ xs) ys = ground (arith, among-append n xs ys)

among-from :
    (n start count : ℕ) → among n (from start count) ≡ (leb start n && ltb n (start + count))
among-from n start zero = ground arith
among-from n start (suc count) = ground (arith, among-from n (start + 1) count)

among-numbers_of : (n : ℕ) (r : Record) → among n (numbers_of r) ≡ record_names n r
among-numbers_of n (range start end) = ground (arith, among-from n start (end + 1 - start))
among-numbers_of n (single m) = ground arith

among-numbers : (n : ℕ) (ack : AckOrNack) → among n (numbers ack) ≡ names n ack
among-numbers n [] = refl
among-numbers n (r ∷ rs) =
    ground
      (arith, among-append n (numbers_of r) (numbers rs), among-numbers_of n r, among-numbers n rs)

keep-congr : (p q : ℕ → Bool) (m : Entries) → ((n : ℕ) → p n ≡ q n) → keep p m ≡ keep q m
keep-congr p q [] e = refl
keep-congr p q ((k, entry) ∷ m) e = rw (e k, keep-congr p q m e) refl

keep-keep : (p q : ℕ → Bool) (m : Entries) → keep p (keep q m) ≡ keep (λ n. q n && p n) m
keep-keep p q [] = refl
keep-keep p q ((k, entry) ∷ m) = elim (Bool-cases (q k)) [
  | inl e ↦ rw (e, keep-keep p q m) refl
  | inr e ↦ rw (e, keep-keep p q m) refl
]

keep-all : (n : ℕ) (m : Entries) → has n m ≡ false → keep (λ k. not (k == n)) m ≡ m
keep-all n [] e = refl
keep-all n ((k, entry) ∷ m) e = rw (differs, keep-all n m (ground arith)) refl
  where
    differs : (k == n) ≡ false
    differs = ground arith

-- What is taken out under a number is all that has it.
remove-keep : (n : ℕ) (m : Entries) → Distinct m → (remove n m).1 ≡ keep (λ k. not (k == n)) m
unfolding remove
remove-keep n [] d = refl
remove-keep n ((k, entry) ∷ m) (h, d) = elim (Bool-cases (k == n)) [
  | inl e ↦ rw e (sym (keep-all n m (subst (λ x. has x m ≡ false) (==→eq k n e) h)))
  | inr e ↦ rw (e, remove-keep n m d) refl
]

has-keep : (n : ℕ) (p : ℕ → Bool) (m : Entries) → has n m ≡ false → has n (keep p m) ≡ false
has-keep n p [] h = refl
has-keep n p ((k, entry) ∷ m) h = elim (Bool-cases (p k)) [
  | inl e ↦ rw e (ground (arith, has-keep n p m (ground arith)))
  | inr e ↦ rw e (has-keep n p m (ground arith))
]

pub keep-Distinct : (p : ℕ → Bool) (m : Entries) → Distinct m → Distinct (keep p m)
keep-Distinct p [] d = tt
keep-Distinct p ((k, entry) ∷ m) (h, d) = elim (Bool-cases (p k)) [
  | inl e ↦ rw e (has-keep k p m h, keep-Distinct p m d)
  | inr e ↦ rw e (keep-Distinct p m d)
]

without-keep :
    (ns : List ℕ) (m : Entries) → Distinct m → without ns m ≡ keep (λ k. not (among k ns)) m
without-keep [] m d = sym (keep_everything m)
  where
    keep_everything : (m : Entries) → keep (λ k. true) m ≡ m
    keep_everything [] = refl
    keep_everything ((k, entry) ∷ m) = rw (keep_everything m) refl
without-keep (n ∷ ns) m d =
    ap (without ns) (remove-keep n m d)
    ∙ (without-keep ns (keep (λ k. not (k == n)) m) (keep-Distinct (λ k. not (k == n)) m d)
        ∙ (keep-keep (λ k. not (among k ns)) (λ k. not (k == n)) m
            ∙ keep-congr (λ k. not (k == n) && not (among k ns)) (λ k. not (among k (n ∷ ns))) m
                (λ k. ground arith)))

-- Taking out all the numbers of an acknowledgement leaves what it does not name.
pub without-numbers :
    (ack : AckOrNack) (m : Entries) → Distinct m → without (numbers ack) m ≡ unnamed ack m
without-numbers ack m d =
    without-keep (numbers ack) m d
    ∙ keep-congr (λ k. not (among k (numbers ack))) (λ k. not (names k ack)) m
        (λ k. ap not (among-numbers k ack))
