-- ===== src/BitQueue/Front.antt =====
-- The front of a valid `BitVecQueue`: `front` and `pop_front`, on the list of its bits.
use native.Mathlib.Decide.{dec_lt}
use raknet_rs.Prelude.{
  ℕ, zero, suc, ◌+◌, ◌-◌, ◌/◌, ◌%◌, ◌<◌, ◌≡◌, ◌≢◌, refl, sym, ap, ◌∙◌, Bool, true, List, [], ◌∷◌,
  Option, none, some, ◌==◌, length, get_or, Bool-cases, ◌⊎◌, inl, inr, arith, eq→==, ne→==, ==→eq,
  ==_false→ne,
}
use raknet_rs.Prelude.Bits.{bit}
use raknet_rs.BitQueue.{BitVecQueue, new, drop_front, front_of, front, pop_front}
use raknet_rs.BitQueue.Window.{window, window-shift}
use raknet_rs.BitQueue.Refine.{bit_at, contents, IsValid, test_bit, new-contents}

-- The abstract operations at the front.
abbrev pub head? : List Bool → Option Bool
head? [] = none
head? (b ∷ bs) = some b

abbrev pub tail : List Bool → List Bool
tail [] = []
tail (b ∷ bs) = bs

window-head? : (f : ℕ → Bool) (h n : ℕ) → 0 < n → head? (window f h n) ≡ some (f h)
window-head? f h zero lt = absurd (omega arith)
window-head? f h (suc n) lt = refl

-- `front` tests the bit at the head of the first word, whether or not the queue holds a bit.
front_of-bit :
    (store : List ℕ) (h : ℕ) → h < 128 → 0 < length store → front_of store h ≡ some (bit_at store h)
unfolding front_of
front_of-bit [] h lt k = absurd (omega arith)
front_of-bit (w ∷ ws) h lt k =
    ap some (test_bit w h ∙ (λ i. bit (get_or (w ∷ ws) (word i) 0) (slot i) == 1))
  where
    word : 0 ≡ h / 128
    word = omega arith

    slot : h ≡ h % 128
    slot = omega arith

front_of-empty : (store : List ℕ) (h : ℕ) → length store ≡ 0 → front_of store h ≡ none
unfolding front_of
front_of-empty [] h e = refl
front_of-empty (w ∷ ws) h e = absurd (omega arith)

empty-window : (f : ℕ → Bool) (h n : ℕ) → n ≡ 0 → window f h n ≡ []
empty-window f h zero e = refl
empty-window f h (suc n) e = absurd (omega arith)

cons-window : (f : ℕ → Bool) (h n : ℕ) → 0 < n → window f h n ≡ f h ∷ window f (h + 1) (n - 1)
cons-window f h zero lt = absurd (omega arith)
cons-window f h (suc n) lt = ap (λ k. f h ∷ window f (h + 1) k) (omega arith)

-- A queue holds a bit, or its head has reached its tail.
Fill : BitVecQueue → Type 0
Fill q = (q.head < q.tail) ⊎ (q.head ≡ q.tail)

Fill-cases : (q : BitVecQueue) → IsValid q → Fill q
unfolding Fill
Fill-cases q v = elim (dec_lt q.head q.tail) [
  | yes h ↦ inl h
  | no h ↦ inr (omega (arith, v.ordered))
]

-- `front` is the first bit of a queue that holds one; of an empty queue it is never `some true`.
pub front-contents :
    (q : BitVecQueue)
    → IsValid q
    → (contents q ≢ [] → front q ≡ head? (contents q)) × (contents q ≡ [] → front q ≢ some true)
unfolding front Fill
front-contents q v = elim (Fill-cases q v) [
  | inl h ↦ (
    λ ne.
        front_of-bit q.store q.head v.head_in (omega (arith, v.covered))
        ∙ sym (window-head? (bit_at q.store) q.head (q.tail - q.head) (omega arith)),
    λ e. absurd (
        cons-ne-nil _ _
          (sym (cons-window (bit_at q.store) q.head (q.tail - q.head) (omega arith)) ∙ e)),
  )
  | inr h ↦ (
    λ ne. absurd (ne (empty-window (bit_at q.store) q.head (q.tail - q.head) (omega arith))),
    λ e. elim (dec_lt 0 (length q.store)) [
      | yes k ↦ λ t. cc (front_of-bit q.store q.head v.head_in k, v.clean q.head (omega arith), t)
      | no k ↦ λ t. cc (front_of-empty q.store q.head (omega arith), t)
    ],
  )
]
  where
    cons-ne-nil : (b : Bool) (bs : List Bool) → (b ∷ bs) ≢ []
    cons-ne-nil b bs e = cc

bit_at-drop_front : (store : List ℕ) (p : ℕ) → bit_at (drop_front store) p ≡ bit_at store (p + 128)
unfolding drop_front
bit_at-drop_front [] p = λ i. bit 0 (slot i) == 1
  where
    slot : p % 128 ≡ (p + 128) % 128
    slot = omega arith
bit_at-drop_front (w ∷ ws) p = λ i. bit (get_or (w ∷ ws) (word i) 0) (slot i) == 1
  where
    word : suc (p / 128) ≡ (p + 128) / 128
    word = omega arith

    slot : p % 128 ≡ (p + 128) % 128
    slot = omega arith

length-drop_front : (store : List ℕ) → length (drop_front store) ≡ length store - 1
unfolding drop_front
length-drop_front [] = refl
length-drop_front (w ∷ ws) = omega arith

-- `pop_front` drops the first bit; an empty queue stays empty.
pub pop_front-contents :
    (q : BitVecQueue)
    → IsValid q
    → IsValid (pop_front q) × (contents (pop_front q) ≡ tail (contents q))
unfolding pop_front new Fill
pop_front-contents q v = elim (Fill-cases q v) [
  | inr h ↦ rw (eq→== _ _ h) (
    new-contents.0,
    sym (ap tail (empty-window (bit_at q.store) q.head (q.tail - q.head) (omega arith))),
  )
  | inl h ↦ rw (ne→== q.head q.tail (λ e. omega arith)) (elim (Bool-cases (q.head + 1 == 128)) [
    | inl e ↦ rw e (last_of_word (==→eq _ _ e) h)
    | inr e ↦ rw e (same_word (==_false→ne _ _ e) h)
  ])
]
  where
    rest :
        q.head < q.tail
        → tail (contents q) ≡ window (bit_at q.store) (q.head + 1) (q.tail - q.head - 1)
    rest h = ap tail (cons-window (bit_at q.store) q.head (q.tail - q.head) (omega arith))

    same_word :
        q.head + 1 ≢ 128
        → q.head < q.tail
        → let r : BitVecQueue = record q { head = q.head + 1 } in
          IsValid r × (contents r ≡ tail (contents q))
    same_word ne h = (
      record {
        ordered = omega arith;
        head_in = omega (arith, v.head_in);
        covered = v.covered;
        tight = v.tight;
        clean = v.clean;
      },
      ap (window (bit_at q.store) (q.head + 1)) (omega arith) ∙ sym (rest h),
    )

    last_of_word :
        q.head + 1 ≡ 128
        → q.head < q.tail
        → let r : BitVecQueue = record {
          store = drop_front q.store;
          head = 0;
          tail = q.tail - 128;
        } in
          IsValid r × (contents r ≡ tail (contents q))
    last_of_word e h = (
      record {
        ordered = omega arith;
        head_in = omega arith;
        covered = omega (arith, length-drop_front q.store, v.covered);
        tight = omega (arith, length-drop_front q.store, v.covered, v.tight);
        clean = λ p k. bit_at-drop_front q.store p ∙ v.clean (p + 128) (omega arith);
      },
      window-shift (bit_at (drop_front q.store)) (bit_at q.store) 128 0 (q.head + 1)
            (q.tail - 128 - 0) (omega arith) (bit_at-drop_front q.store)
          ∙ ap (window (bit_at q.store) (q.head + 1)) (omega arith)
          ∙ sym (rest h),
    )
