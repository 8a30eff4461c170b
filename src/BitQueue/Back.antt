-- ===== src/BitQueue/Back.antt =====
-- The back of a valid `BitVecQueue`: `push_back`, on the list of its bits.
use native.Mathlib.Decide.{dec_lt}
use raknet_rs.Prelude.{
  ℕ, zero, suc, ◌+◌, ◌-◌, ◌*◌, ◌/◌, ◌%◌, ◌≤◌, ◌<◌, ◌≡◌, ◌≢◌, refl, sym, ap, ◌∙◌, Bool, true, false,
  List, [], ◌∷◌, ◌++◌, ◌==◌, length, get_or, set as set_elem, get_or-append_left,
  get_or-append_right, get_or_beyond, length-set, length-append, Bool-cases, inl, inr, arith,
  if◌then◌else◌, ==→eq, ==_false→ne,
}
use raknet_rs.Prelude.Bits.{bit, zero-bit, one-bit, bit_and_127}
use raknet_rs.BitQueue.{BitVecQueue, write_bit, write_back, has_back, push_back}
use raknet_rs.BitQueue.Window.{window, window-ext, window-snoc}
use raknet_rs.BitQueue.Refine.{
  bit_at, contents, IsValid, write_at, bit_at-write_self, bit_at-write_ne,
}

-- What `push_back` must leave behind: the bit `b` at the tail, and no other change.
record Pushed (q : BitVecQueue) (b : Bool) (store : List ℕ) : Type 0 where
  covered : q.tail + 1 ≤ 128 * length store
  tight : 128 * length store < q.tail + 1 + 128
  at_tail : bit_at store q.tail ≡ b
  elsewhere : (p : ℕ) → q.tail ≢ p → bit_at store p ≡ bit_at q.store p

Pushed-contents :
    (q : BitVecQueue) (b : Bool) (store : List ℕ)
    → IsValid q
    → Pushed q b store
    → let r : BitVecQueue = record q { store = store; tail = q.tail + 1 } in
      IsValid r × (contents r ≡ contents q ++ (b ∷ []))
Pushed-contents q b store v h = (
  record {
    ordered = omega arith;
    head_in = v.head_in;
    covered = h.covered;
    tight = h.tight;
    clean = λ p k. h.elsewhere p (omega arith) ∙ v.clean p (omega arith);
  },
  ap (window (bit_at store) q.head) (count)
      ∙ window-snoc (bit_at store) q.head (q.tail - q.head) q.tail (omega arith)
      ∙ (λ i.
          window-ext (bit_at store) (bit_at q.store) q.head (q.tail - q.head)
            (λ p lo hi. h.elsewhere p (omega arith)) i
          ++ (h.at_tail i ∷ [])),
)
  where
    count : q.tail + 1 - q.head ≡ suc (q.tail - q.head)
    count = omega (arith, v.ordered)

write_back-set :
    (w : ℕ) (ws : List ℕ) (s n : ℕ) (b : Bool)
    → n ≡ length ws
    → write_back (w ∷ ws) s b ≡ set_elem (w ∷ ws) n (write_bit (get_or (w ∷ ws) n 0) s b)
unfolding write_back
write_back-set w [] s zero b e = refl
write_back-set w [] s (suc n) b e = absurd (omega arith)
write_back-set w (x ∷ ws) s zero b e = absurd (omega arith)
write_back-set w (x ∷ ws) s (suc n) b e = ap (λ t. w ∷ t) (write_back-set x ws s n b (omega arith))

write_back-write_at :
    (store : List ℕ) (tail : ℕ) (b : Bool)
    → tail % 128 ≢ 0
    → tail ≤ 128 * length store
    → 128 * length store < tail + 128
    → write_back store (tail % 128) b ≡ write_at store tail b
write_back-write_at [] tail b ne h k = absurd (ne (omega arith))
write_back-write_at (w ∷ ws) tail b ne h k =
    write_back-set w ws (tail % 128) (tail / 128) b (omega arith)

-- The bit goes into the last word.
Pushed-same_word :
    (q : BitVecQueue) (b : Bool)
    → IsValid q
    → q.tail % 128 ≢ 0
    → Pushed q b (write_back q.store (q.tail % 128) b)
Pushed-same_word q b v ne = rw (write_back-write_at q.store q.tail b ne v.covered v.tight) (record {
  covered = omega (arith, same_length, v.covered);
  tight = omega (arith, same_length, v.tight);
  at_tail = bit_at-write_self q.store q.tail b (omega (arith, v.covered));
  elsewhere = bit_at-write_ne q.store q.tail b (omega (arith, v.covered));
})
  where
    same_length : length (write_at q.store q.tail b) ≡ length q.store
    same_length =
        length-set q.store (q.tail / 128)
          (write_bit (get_or q.store (q.tail / 128) 0) (q.tail % 128) b)

abbrev first_bit : Bool → ℕ
first_bit b = if b then 1 else 0

first_bit-bit : (b : Bool) → (bit (first_bit b) 0 == 1) ≡ b
first_bit-bit true = refl
first_bit-bit false = refl

first_bit-others : (b : Bool) (i : ℕ) → i ≢ 0 → bit (first_bit b) i ≡ 0
first_bit-others b zero h = absurd (h refl)
first_bit-others true (suc i) h = one-bit i
first_bit-others false (suc i) h = zero-bit (suc i)

new_word : (b : Bool) (j k : ℕ) → (j ≡ 0 → k ≢ 0) → bit (get_or (first_bit b ∷ []) j 0) k ≡ 0
new_word b zero k h = first_bit-others b k (h refl)
new_word b (suc j) k h = zero-bit k

-- The bit opens a new word.
Pushed-new_word :
    (q : BitVecQueue) (b : Bool)
    → IsValid q
    → q.tail ≡ 128 * length q.store
    → Pushed q b (q.store ++ (first_bit b ∷ []))
Pushed-new_word q b v e = record {
  covered = omega (arith, length-append q.store (first_bit b ∷ []));
  tight = omega (arith, length-append q.store (first_bit b ∷ []));
  at_tail =
      (λ i.
        bit (get_or-append_right q.store (first_bit b ∷ []) (q.tail / 128) 0 0 (omega arith) i)
          (zeroth i)
        == 1)
      ∙ first_bit-bit b;
  elsewhere = others;
}
  where
    zeroth : q.tail % 128 ≡ 0
    zeroth = omega arith

    others : (p : ℕ) → q.tail ≢ p → bit_at (q.store ++ (first_bit b ∷ [])) p ≡ bit_at q.store p
    others p ne = elim (dec_lt (p / 128) (length q.store)) [
      | yes h ↦
          ap (λ (w : ℕ). bit w (p % 128) == 1)
            (get_or-append_left q.store (first_bit b ∷ []) (p / 128) 0 h)
      | no h ↦
          ap (λ (x : ℕ). x == 1)
            (ap (λ (w : ℕ). bit w (p % 128))
                (get_or-append_right q.store (first_bit b ∷ []) (p / 128) (p / 128 - length q.store)
                  0 (omega arith))
              ∙ new_word b (p / 128 - length q.store) (p % 128) (λ j. omega arith)
              ∙ sym (
                  ap (λ (w : ℕ). bit w (p % 128)) (get_or_beyond q.store (p / 128) 0 (omega arith))
                  ∙ zero-bit (p % 128)))
    ]

has_back-empty : (store : List ℕ) → has_back store ≡ false → length store ≡ 0
unfolding has_back
has_back-empty [] e = refl
has_back-empty (w ∷ ws) e = cc

aligned : (q : BitVecQueue) → IsValid q → q.tail % 128 ≡ 0 → q.tail ≡ 128 * length q.store
aligned q v e = omega (arith, v.covered, v.tight)

-- `push_back` puts the bit behind the others.
pub push_back-contents :
    (q : BitVecQueue) (b : Bool)
    → IsValid q
    → IsValid (push_back q b) × (contents (push_back q b) ≡ contents q ++ (b ∷ []))
unfolding push_back
push_back-contents q b v = rw bit_and_127 (elim (Bool-cases (has_back q.store)) [
  | inl e ↦ elim (Bool-cases (q.tail % 128 == 0)) [
    | inl z ↦
        rw (e, z) (Pushed-contents q b _ v (Pushed-new_word q b v (aligned q v (==→eq _ _ z))))
    | inr z ↦ rw (e, z) (Pushed-contents q b _ v (Pushed-same_word q b v (==_false→ne _ _ z)))
  ]
  | inr e ↦ rw e (
      Pushed-contents q b _ v
        (Pushed-new_word q b v (aligned q v (omega (arith, has_back-empty q.store e, v.covered)))))
])
