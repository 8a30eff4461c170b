-- ===== src/BitQueue/Refine.antt =====
-- A valid `BitVecQueue` is the list of its bits, and each operation is the operation on that list.
use Prim.Native.Nat.{bit_and}
use native.Mathlib.Nat.{one-le-pow}
use native.Mathlib.Decide.{ℕ_discrete}
use raknet_rs.Prelude.{
  ℕ, zero, suc, ◌+◌, ◌-◌, ◌*◌, ◌/◌, ◌%◌, ◌^◌, ◌≤◌, ◌<◌, ◌≡◌, ◌≢◌, refl, sym, ap, ◌∙◌, Bool, true,
  false, not, List, [], ◌==◌, length, get_or, get_elem?, set as set_elem, get_or-set_self,
  get_or-set_ne, length-set, get_elem?_beyond, set_beyond, leb, leb→le, leb_false→lt, Bool-cases,
  inl, inr, arith,
}
use raknet_rs.Prelude.Bits.{
  bit, bit-le-one, zero-bit, bit_and_mask, bit_and_127, bit-bit_or_self, bit-bit_or_ne,
  bit-clear_self, bit-clear_ne,
}
use raknet_rs.BitQueue.{BitVecQueue, new, len, get, write_bit, set}
use raknet_rs.BitQueue.Window.{window, length-window, get_elem?-window, window-set}

-- The bit at place `p` of the words laid end to end.
abbrev pub bit_at : List ℕ → ℕ → Bool
bit_at store p = bit (get_or store (p / 128) 0) (p % 128) == 1

abbrev pub contents : BitVecQueue → List Bool
contents q = window (bit_at q.store) q.head (q.tail - q.head)

pub record IsValid (q : BitVecQueue) : Type 0 where
  pub ordered : q.head ≤ q.tail
  pub head_in : q.head < 128
  pub covered : q.tail ≤ 128 * length q.store
  pub tight : 128 * length q.store < q.tail + 128
  -- The bits behind the tail are not set.
  pub clean : (p : ℕ) → q.tail ≤ p → bit_at q.store p ≡ false

-- The sources' test of one bit.
nonzero_product : (x b m : ℕ) → x ≡ b * m → b ≤ 1 → 1 ≤ m → not (x == 0) ≡ (b == 1)
nonzero_product x zero m e h k = ground arith
nonzero_product x (suc zero) m e h k = ground arith
nonzero_product x (suc (suc b)) m e h k = absurd (omega arith)

pub test_bit : (w s : ℕ) → not (bit_and w (2 ^ s) == 0) ≡ (bit w s == 1)
test_bit w s =
    nonzero_product _ (bit w s) (2 ^ s) (bit_and_mask w s) (bit-le-one w s)
      (one-le-pow s 2 (omega arith))

-- `write_bit` changes one bit of a word.
write_bit_self : (w s : ℕ) (v : Bool) → s < 128 → (bit (write_bit w s v) s == 1) ≡ v
unfolding write_bit
write_bit_self w s true h = ground (arith, bit-bit_or_self w s)
write_bit_self w s false h = ground (arith, bit-clear_self 128 w s h)

write_bit_ne :
    (w s t : ℕ) (v : Bool) → s < 128 → t < 128 → s ≢ t → bit (write_bit w s v) t ≡ bit w t
unfolding write_bit
write_bit_ne w s t true h k ne = bit-bit_or_ne w s t ne
write_bit_ne w s t false h k ne = bit-clear_ne 128 w s t h k ne

-- The store with the bit at place `p` made `v`.
abbrev pub write_at : List ℕ → ℕ → Bool → List ℕ
write_at store p v = set_elem store (p / 128) (write_bit (get_or store (p / 128) 0) (p % 128) v)

pub bit_at-write_self :
    (store : List ℕ) (p : ℕ) (v : Bool) → p < 128 * length store → bit_at (write_at store p v) p ≡ v
bit_at-write_self store p v h =
    ap (λ (w : ℕ). bit w (p % 128) == 1) (get_or-set_self store (p / 128) _ 0 (omega arith))
    ∙ write_bit_self (get_or store (p / 128) 0) (p % 128) v (omega arith)

pub bit_at-write_ne :
    (store : List ℕ) (p : ℕ) (v : Bool)
    → p < 128 * length store
    → (q : ℕ) → p ≢ q
    → bit_at (write_at store p v) q ≡ bit_at store q
bit_at-write_ne store p v h q ne = elim (ℕ_discrete (p / 128) (q / 128)) [
  | yes e ↦
      ap (λ (w : ℕ). bit w (q % 128) == 1)
        (ap (λ (k : ℕ). get_or (write_at store p v) k 0) (sym e)
          ∙ get_or-set_self store (p / 128) _ 0 (omega arith))
      ∙ ap (λ (b : ℕ). b == 1)
          (write_bit_ne (get_or store (p / 128) 0) (p % 128) (q % 128) v (omega arith) (omega arith)
            (λ m. ne (omega arith)))
      ∙ ap (λ (k : ℕ). bit (get_or store k 0) (q % 128) == 1) e
  | no ne' ↦ ap (λ (w : ℕ). bit w (q % 128) == 1) (get_or-set_ne store (p / 128) (q / 128) _ 0 ne')
]

-- `len` is the length of the list.
pub len-contents : (q : BitVecQueue) → len q ≡ length (contents q)
unfolding len
len-contents q = sym (length-window (bit_at q.store) q.head (q.tail - q.head))

-- `get` reads the list, and answers `none` beyond its end.
pub get-contents : (q : BitVecQueue) (i : ℕ) → get q i ≡ get_elem? (contents q) i
unfolding get len
get-contents q i = elim (Bool-cases (leb (q.tail - q.head) i)) [
  | inl e ↦ rw e (
      sym (
        get_elem?_beyond (contents q) i
          (omega (arith, leb→le _ _ e, length-window (bit_at q.store) q.head (q.tail - q.head)))))
  | inr e ↦
      rw (e, bit_and_127, test_bit)
        (sym (get_elem?-window (bit_at q.store) q.head (q.tail - q.head) i (leb_false→lt _ _ e)))
]

-- The new queue.
pub new-contents : IsValid new × (contents new ≡ [])
unfolding new
new-contents = (
  record {
    ordered = omega arith;
    head_in = omega arith;
    covered = omega arith;
    tight = omega arith;
    clean = λ p h. ground (arith, zero-bit (p % 128));
  },
  refl,
)

module _ (q : BitVecQueue) (v : IsValid q) where
  open v use {ordered, head_in, covered, tight, clean}

  -- `set` sets an entry of the list, and changes nothing beyond its end.
  pub set-contents :
      (i : ℕ) (b : Bool) → IsValid (set q i b) × (contents (set q i b) ≡ set_elem (contents q) i b)
  unfolding set len
  set-contents i b = elim (Bool-cases (leb (q.tail - q.head) i)) [
    | inl e ↦ rw e (
      v,
      sym (
          set_beyond (contents q) i b
            (omega (arith, leb→le _ _ e, length-window (bit_at q.store) q.head (q.tail - q.head)))),
    )
    | inr e ↦ rw (e, bit_and_127) (inside (leb_false→lt _ _ e))
  ]
    where
      after : List ℕ
      after = write_at q.store (i + q.head) b

      inside :
          i < q.tail - q.head
          → IsValid (record q { store = after })
            × (window (bit_at after) q.head (q.tail - q.head) ≡ set_elem (contents q) i b)
      inside h = (
        record {
          ordered = ordered;
          head_in = head_in;
          covered = omega (
            arith,
            length-set q.store ((i + q.head) / 128)
                (write_bit (get_or q.store ((i + q.head) / 128) 0) ((i + q.head) % 128) b),
          );
          tight = omega (
            arith,
            length-set q.store ((i + q.head) / 128)
                (write_bit (get_or q.store ((i + q.head) / 128) 0) ((i + q.head) % 128) b),
          );
          clean = λ p k.
              bit_at-write_ne q.store (i + q.head) b (omega arith) p (omega arith) ∙ clean p k;
        },
        window-set (bit_at q.store) (bit_at after) b q.head (q.tail - q.head) i (i + q.head) h refl
            (bit_at-write_self q.store (i + q.head) b (omega arith))
            (bit_at-write_ne q.store (i + q.head) b (omega arith)),
      )
