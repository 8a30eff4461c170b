-- ===== src/Packet/Ack/Extend.antt =====
-- `extend_from` compresses losslessly, and within the `mtu`.
use mathlib.Core.List.{append_assoc, append-nil}
use raknet_rs.Prelude.{
  ℕ, zero, suc, ◌+◌, ◌-◌, ◌^◌, ◌≤◌, ◌<◌, ◌≡◌, refl, sym, ap, ◌∙◌, Bool, true, false, List, [], ◌∷◌,
  ◌++◌, some, if◌then◌else◌, ltb, leb, ◌==◌, length, arith, Bool-cases, inl, inr, All, ltb_false→le,
  le→leb, ==→eq, eq→==,
}
use raknet_rs.Prelude.Outcome.{Outcome, ok, ◌>>=◌}
use raknet_rs.Seq
use raknet_rs.Packet.Ack.{Record, range, single, AckOrNack, record_of, extend_loop, extend_from}

-- The `n` numbers from `start` on.
abbrev pub run : ℕ → ℕ → List ℕ
run start zero = []
run start (suc n) = start ∷ run (start + 1) n

-- The sequence numbers that records stand for, in order.
abbrev pub numbers : Record → List ℕ
numbers (range start end) = run start (end + 1 - start)
numbers (single n) = n ∷ []

abbrev pub expand : List Record → List ℕ
expand [] = []
expand (r ∷ rs) = numbers r ++ expand rs

-- The bytes that records take on the wire, as the sources count them.
abbrev pub record_size : Record → ℕ
record_size (range start end) = 7
record_size (single n) = 4

abbrev pub records_size : List Record → ℕ
records_size [] = 0
records_size (r ∷ rs) = record_size r + records_size rs

-- A record of numbers of 24 bits, whose range does not run backwards.
abbrev pub Fits : Record → Type 0
Fits (range start end) = (start ≤ end) × (end < 2 ^ 24) × (end - start + 1 < 2 ^ 24)
Fits (single n) = n < 2 ^ 24

-- A sequence number that has a successor among the 24 bits.
abbrev pub HasNext : ℕ → Type 0
HasNext n = n + 1 < 2 ^ 24

run-snoc : (start n k : ℕ) → k ≡ start + n → run start (suc n) ≡ run start n ++ (k ∷ [])
run-snoc start zero k e = ap (λ x. x ∷ []) (omega arith)
run-snoc start (suc n) k e = ap (λ t. start ∷ t) (run-snoc (start + 1) n k (omega arith))

-- The open record, from `first` to `last`.
numbers-record_of :
    (first last : ℕ) → first ≤ last → numbers (record_of first last) ≡ run first (last + 1 - first)
numbers-record_of first last h = elim (Bool-cases (first == last)) [
  | inl e ↦ rw e (sym (one (last + 1 - first) (omega (arith, ==→eq _ _ e))))
  | inr e ↦ rw e
]
  where
    one : (n : ℕ) → n ≡ 1 → run first n ≡ first ∷ []
    one zero e = absurd (omega arith)
    one (suc zero) e = refl
    one (suc (suc n)) e = absurd (omega arith)

record_of-Fits : (first last : ℕ) → first ≤ last → HasNext last → Fits (record_of first last)
record_of-Fits first last h n = elim (Bool-cases (first == last)) [
  | inl e ↦ rw e (omega arith)
  | inr e ↦ rw e (h, omega arith, omega arith)
]

-- What the bytes of the open record come to: while it may still be upgraded it is a single number.
abbrev open_size : Bool → ℕ
open_size upgrade = if upgrade then 4 else 7

record_size-record_of :
    (first last : ℕ) (upgrade : Bool)
    → (upgrade ≡ true → first ≡ last)
    → record_size (record_of first last) ≤ open_size upgrade
record_size-record_of first last true h = rw (eq→== first last (h refl)) (omega arith)
record_size-record_of first last false h = elim (Bool-cases (first == last)) [
  | inl e ↦ rw e (omega arith)
  | inr e ↦ rw e (omega arith)
]

-- What the loop comes to: no panic, the numbers of the open record and of the iterator kept, in
-- order, and the records within their budget, none of which runs backwards.
record Extended (pending rest : List ℕ) (budget : ℕ) (r : Outcome (List Record × List ℕ))
    : Type 0 where
  pub records : List Record
  pub left : List ℕ
  pub returns : r ≡ ok (records, left)
  pub kept : expand records ++ left ≡ pending ++ rest
  pub fits : records_size records ≤ budget
  pub forwards : All Fits records
  pub taken : length left ≤ length rest

closed :
    (rest : List ℕ) (first last : ℕ) (upgrade : Bool) (mtu : ℕ)
    → first ≤ last
    → (upgrade ≡ true → first ≡ last)
    → HasNext last
    → Extended
        (run first (last + 1 - first))
        rest
        (open_size upgrade + mtu)
        (ok (record_of first last ∷ [], rest))
closed rest first last upgrade mtu h u n = record {
  records = record_of first last ∷ [];
  left = rest;
  returns = refl;
  kept =
      ap (λ t. t ++ rest)
        (append-nil (numbers (record_of first last)) ∙ numbers-record_of first last h);
  fits = omega (arith, record_size-record_of first last upgrade u);
  forwards = (record_of-Fits first last h n, tt);
  taken = omega arith;
}

-- The next number prolongs the open record, and an upgrade to a range costs three bytes.
abbrev room_left : Bool → ℕ → ℕ
room_left upgrade mtu = if upgrade then mtu - 3 else mtu

room_checked : (upgrade : Bool) (mtu : ℕ) → 4 ≤ mtu → (if upgrade then leb 3 mtu else true) ≡ true
room_checked true mtu h = le→leb 3 mtu (omega arith)
room_checked false mtu h = refl

room_enough :
    (upgrade : Bool) (mtu : ℕ) → 4 ≤ mtu → 7 + room_left upgrade mtu ≤ open_size upgrade + mtu
room_enough true mtu h = omega arith
room_enough false mtu h = omega arith

prolong :
    (rest : List ℕ) (first last s : ℕ) (upgrade : Bool) (mtu : ℕ)
    (r : Outcome (List Record × List ℕ))
    → first ≤ last
    → s ≡ last + 1
    → 4 ≤ mtu
    → Extended (run first (s + 1 - first)) rest (7 + room_left upgrade mtu) r
    → Extended (run first (last + 1 - first)) (s ∷ rest) (open_size upgrade + mtu) r
prolong rest first last s upgrade mtu r h e m x = record {
  records = x.records;
  left = x.left;
  returns = x.returns;
  kept =
      x.kept
      ∙ ap (λ t. t ++ rest)
          (ap (run first) (count) ∙ run-snoc first (last + 1 - first) s (omega arith))
      ∙ append_assoc (run first (last + 1 - first)) (s ∷ []) rest;
  fits = omega (arith, x.fits, room_enough upgrade mtu m);
  forwards = x.forwards;
  taken = omega (arith, x.taken);
}
  where
    count : s + 1 - first ≡ suc (last + 1 - first)
    count = omega arith

-- The next number opens another record.
start_another :
    (rest : List ℕ) (first last s : ℕ) (upgrade : Bool) (mtu : ℕ)
    (r : Outcome (List Record × List ℕ))
    → first ≤ last
    → (upgrade ≡ true → first ≡ last)
    → HasNext last
    → 4 ≤ mtu
    → Extended (run s (s + 1 - s)) rest (4 + (mtu - 4)) r
    → Extended
        (run first (last + 1 - first))
        (s ∷ rest)
        (open_size upgrade + mtu)
        (r >>= λ x. ok (record_of first last ∷ x.0, x.1))
start_another rest first last s upgrade mtu r h u n m x = record {
  records = record_of first last ∷ x.records;
  left = x.left;
  returns = rw x.returns;
  kept =
      append_assoc (numbers (record_of first last)) (expand x.records) x.left
      ∙ (λ i. numbers-record_of first last h i ++ (x.kept ∙ ap (λ n. run s n ++ rest) one) i);
  fits = omega (arith, x.fits, record_size-record_of first last upgrade u);
  forwards = (record_of-Fits first last h n, x.forwards);
  taken = omega (arith, x.taken);
}
  where
    one : s + 1 - s ≡ 1
    one = omega arith

extend_loop-Extended :
    (rest : List ℕ) (first last : ℕ) (upgrade : Bool) (mtu : ℕ)
    → first ≤ last
    → (upgrade ≡ true → first ≡ last)
    → HasNext last
    → All HasNext rest
    → Extended
        (run first (last + 1 - first))
        rest
        (open_size upgrade + mtu)
        (extend_loop rest first last upgrade mtu)
unfolding extend_loop
extend_loop-Extended [] first last upgrade mtu h u n ns = closed [] first last upgrade mtu h u n
extend_loop-Extended (s ∷ rest) first last upgrade mtu h u n (ns, nss) =
    elim (Bool-cases (ltb mtu 4)) [
      | inl e ↦ rw e (closed (s ∷ rest) first last upgrade mtu h u n)
      | inr e ↦
          rw (e, Seq.add-ok last 1 n)
            (elim (Bool-cases (s == last + 1)) [
              | inl k ↦
                  rw (k, room_checked upgrade mtu (ltb_false→le _ _ e))
                    (prolong rest first last s upgrade mtu _ h (==→eq _ _ k) (ltb_false→le _ _ e) (
                      extend_loop-Extended rest first s false (room_left upgrade mtu)
                        (omega (arith, ==→eq _ _ k)) (λ f. cc) ns nss))
              | inr k ↦
                  rw (k, le→leb 4 mtu (ltb_false→le _ _ e))
                    (start_another rest first last s upgrade mtu _ h u n (ltb_false→le _ _ e) (
                      extend_loop-Extended rest s s true (mtu - 4) (omega arith) (λ f. refl) ns
                        nss))
            ])
    ]

-- For every iterator of sequence numbers below 2 ^ 24 - 1, sorted or not, that gives one at least, and
-- every `mtu` from 7 on, `extend_from` does not panic. Its records stand for exactly the numbers that it
-- took from the iterator, one at least, in order and with repetitions; and the packet, with the type in 1 byte and
-- the count in 2, takes no more than `mtu` bytes.
pub extend_from_lossless :
    (first : ℕ) (rest : List ℕ) (mtu : ℕ)
    → 7 ≤ mtu
    → All HasNext (first ∷ rest)
    → (records : AckOrNack) × (left : List ℕ) × (extend_from (first ∷ rest) mtu
        ≡ ok (some records, left))
      × (expand records ++ left ≡ first ∷ rest)
      × (1 + 2 + records_size records ≤ mtu)
      × All Fits records
      × (length left ≤ length rest)
unfolding extend_from
extend_from_lossless first rest mtu h (n, ns) =
    let x : Extended (run first (first + 1 - first)) rest (4 + (mtu - 7))
        (extend_loop rest first first true (mtu - 7)) =
      extend_loop-Extended rest first first true (mtu - 7) (omega arith) (λ e. refl) n ns in
    (
      x.records,
      x.left,
      rw (le→leb 7 mtu h, x.returns),
      x.kept ∙ ap (λ n. run first n ++ rest) one,
      omega (arith, x.fits),
      x.forwards,
      x.taken,
    )
  where
    one : first + 1 - first ≡ 1
    one = omega arith
