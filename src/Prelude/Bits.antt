-- ===== src/Prelude/Bits.antt =====
-- Single bits of a word: the native `bit_and` and `bit_or` with a one-bit mask, read through the
-- digit recursion that they stand for.
use Prim.Native.Nat.{
  ℕ, zero, suc, ◌+◌, ◌-◌, ◌*◌, ◌/◌, ◌%◌, ◌^◌, ◌≤◌, ◌<◌, min, max, bit_and, bit_or, digits,
  bit_and-bitwise, bit_or-bitwise,
}
use mathlib.Core.Path.{◌≡◌, refl, ap, ◌∙◌}
use mathlib.Core.Logic.{◌≢◌}
use native.Mathlib.Omega.{arith}
use native.Mathlib.Nat.{pow-suc, one-le-pow}

-- A digit recursion gives the same number on any two counts of rounds that reach its first number.
same_digits :
    (rest : ℕ → ℕ) (op : ℕ → ℕ → ℕ) (x k l y : ℕ)
    → x ≤ k
    → x ≤ l
    → digits rest op k x y ≡ digits rest op l x y
same_digits rest op zero zero zero y h g = refl
same_digits rest op zero zero (suc l) y h g = refl
same_digits rest op zero (suc k) zero y h g = refl
same_digits rest op zero (suc k) (suc l) y h g = refl
same_digits rest op (suc x) zero l y h g = absurd (omega arith)
same_digits rest op (suc x) (suc k) zero y h g = absurd (omega arith)
same_digits rest op (suc x) (suc k) (suc l) y h g =
    omega (arith, same_digits rest op (suc x / 2) k l (y / 2) (omega arith) (omega arith))

-- The lowest digit, and the others.
pub bit_and_step : (x y : ℕ) → bit_and x y ≡ bit_and (x / 2) (y / 2) * 2 + min (x % 2) (y % 2)
bit_and_step zero y = omega (arith, bit_and-bitwise 0 y, bit_and-bitwise 0 (y / 2))
bit_and_step (suc x) y =
    let shorter =
      same_digits (λ z. zero) min (suc x / 2) x (suc x / 2) (y / 2) (omega arith) (omega arith) in
    omega (arith, shorter, bit_and-bitwise (suc x) y, bit_and-bitwise (suc x / 2) (y / 2))

pub bit_or_step : (x y : ℕ) → bit_or x y ≡ bit_or (x / 2) (y / 2) * 2 + max (x % 2) (y % 2)
bit_or_step zero y = omega (arith, bit_or-bitwise 0 y, bit_or-bitwise 0 (y / 2))
bit_or_step (suc x) y =
    let shorter =
      same_digits (λ z. z) max (suc x / 2) x (suc x / 2) (y / 2) (omega arith) (omega arith) in
    omega (arith, shorter, bit_or-bitwise (suc x) y, bit_or-bitwise (suc x / 2) (y / 2))

-- The mask 0, on a number below a bound.
zero_mask : (bound x : ℕ) → x ≤ bound → (bit_and x 0 ≡ 0) × (bit_or x 0 ≡ x)
zero_mask bound zero h = (refl, refl)
zero_mask zero (suc x) h = absurd (omega arith)
zero_mask (suc bound) (suc x) h =
    let (cleared, same) = zero_mask bound (suc x / 2) (omega arith) in
    (omega (arith, bit_and_step (suc x) 0, cleared), omega (arith, bit_or_step (suc x) 0, same))

pub bit_and-zero : (a : ℕ) → bit_and a 0 ≡ 0
bit_and-zero a = (zero_mask a a (omega arith)).0

pub bit_or-zero : (a : ℕ) → bit_or a 0 ≡ a
bit_or-zero a = (zero_mask a a (omega arith)).1

-- The binary digit of `w` at place `i`: 0 or 1.
abbrev pub bit : ℕ → ℕ → ℕ
bit w zero = w % 2
bit w (suc i) = bit (w / 2) i

pub bit-le-one : (w i : ℕ) → bit w i ≤ 1
bit-le-one w zero = omega arith
bit-le-one w (suc i) = bit-le-one (w / 2) i

pub zero-bit : (i : ℕ) → bit 0 i ≡ 0
zero-bit zero = refl
zero-bit (suc i) = zero-bit i

pub one-bit : (i : ℕ) → bit 1 (suc i) ≡ 0
one-bit i = zero-bit i

-- `w & (1 << i)` is the digit, in its place.
pub bit_and_mask : (w i : ℕ) → bit_and w (2 ^ i) ≡ bit w i * 2 ^ i
bit_and_mask w zero = omega (arith, bit_and_step w 1, bit_and-zero (w / 2))
bit_and_mask w (suc i) = omega (
  arith,
  bit_and_step w (2 ^ suc i),
  pow-suc 2 i,
  ap (λ (t : ℕ). bit_and (w / 2) t) half,
  bit_and_mask (w / 2) i,
  ap (λ (t : ℕ). bit (w / 2) i * t) (pow-suc 2 i),
)
  where
    half : 2 ^ suc i / 2 ≡ 2 ^ i
    half = omega (arith, pow-suc 2 i)

-- A mask shifted by one acts on the digits above the lowest.
half-mask : (i : ℕ) → 2 ^ suc i / 2 ≡ 2 ^ i
half-mask i = omega (arith, pow-suc 2 i)

half-bit_or : (w m n : ℕ) → m / 2 ≡ n → bit_or w m / 2 ≡ bit_or (w / 2) n
half-bit_or w m n e = omega (arith, bit_or_step w m, ap (λ (t : ℕ). bit_or (w / 2) t) e)

half-bit_and : (w m n : ℕ) → m / 2 ≡ n → bit_and w m / 2 ≡ bit_and (w / 2) n
half-bit_and w m n e = omega (arith, bit_and_step w m, ap (λ (t : ℕ). bit_and (w / 2) t) e)

-- `w | (1 << i)` sets the digit and no other.
pub bit-bit_or_self : (w i : ℕ) → bit (bit_or w (2 ^ i)) i ≡ 1
bit-bit_or_self w zero = omega (arith, bit_or_step w 1)
bit-bit_or_self w (suc i) =
    ap (λ (t : ℕ). bit t i) (half-bit_or w _ _ (half-mask i)) ∙ bit-bit_or_self (w / 2) i

pub bit-bit_or_ne : (w i j : ℕ) → i ≢ j → bit (bit_or w (2 ^ i)) j ≡ bit w j
bit-bit_or_ne w zero zero h = absurd (h refl)
bit-bit_or_ne w zero (suc j) h =
    ap (λ (t : ℕ). bit t j) (half-bit_or w 1 0 refl ∙ bit_or-zero (w / 2))
bit-bit_or_ne w (suc i) zero h = omega (arith, bit_or_step w (2 ^ suc i), pow-suc 2 i)
bit-bit_or_ne w (suc i) (suc j) h =
    ap (λ (t : ℕ). bit t j) (half-bit_or w _ _ (half-mask i))
    ∙ bit-bit_or_ne (w / 2) i j (λ e. h (ap suc e))

-- `!(1 << i)` in a word of `n` bits.
abbrev pub not_mask : ℕ → ℕ → ℕ
not_mask n i = 2 ^ n - 1 - 2 ^ i

two_pow_lt : (i n : ℕ) → i < n → 2 ^ i < 2 ^ n
two_pow_lt i zero h = absurd (omega arith)
two_pow_lt zero (suc n) h = omega (arith, pow-suc 2 n, one-le-pow n 2)
two_pow_lt (suc i) (suc n) h = omega (arith, pow-suc 2 n, pow-suc 2 i, two_pow_lt i n)

half-not_mask : (n i : ℕ) → i < n → not_mask (suc n) (suc i) / 2 ≡ not_mask n i
half-not_mask n i h = omega (arith, pow-suc 2 n, pow-suc 2 i, two_pow_lt i n h)

half-not_mask_zero : (n : ℕ) → not_mask (suc n) 0 / 2 ≡ 2 ^ n - 1
half-not_mask_zero n = omega (arith, pow-suc 2 n, one-le-pow n 2)

-- A mask of `n` ones keeps the digits below `n`.
bit-ones : (n w j : ℕ) → j < n → bit (bit_and w (2 ^ n - 1)) j ≡ bit w j
bit-ones zero w j h = absurd (omega arith)
bit-ones (suc n) w zero h =
    omega (arith, bit_and_step w (2 ^ suc n - 1), pow-suc 2 n, one-le-pow n 2)
bit-ones (suc n) w (suc j) h =
    ap (λ (t : ℕ). bit t j)
      (half-bit_and w _ (2 ^ n - 1) (omega (arith, pow-suc 2 n, one-le-pow n 2)))
    ∙ bit-ones n (w / 2) j (omega arith)

-- `w & !(1 << i)` clears the digit and no other.
pub bit-clear_self : (n w i : ℕ) → i < n → bit (bit_and w (not_mask n i)) i ≡ 0
bit-clear_self zero w i h = absurd (omega arith)
bit-clear_self (suc n) w zero h =
    omega (arith, bit_and_step w (not_mask (suc n) 0), pow-suc 2 n, one-le-pow n 2)
bit-clear_self (suc n) w (suc i) h =
    ap (λ (t : ℕ). bit t i) (half-bit_and w _ _ (half-not_mask n i (omega arith)))
    ∙ bit-clear_self n (w / 2) i (omega arith)

pub bit-clear_ne :
    (n w i j : ℕ) → i < n → j < n → i ≢ j → bit (bit_and w (not_mask n i)) j ≡ bit w j
bit-clear_ne zero w i j h k ne = absurd (omega arith)
bit-clear_ne (suc n) w zero zero h k ne = absurd (ne refl)
bit-clear_ne (suc n) w zero (suc j) h k ne =
    ap (λ (t : ℕ). bit t j) (half-bit_and w _ _ (half-not_mask_zero n))
    ∙ bit-ones n (w / 2) j (omega arith)
bit-clear_ne (suc n) w (suc i) zero h k ne = omega (
  arith,
  bit_and_step w (not_mask (suc n) (suc i)),
  pow-suc 2 n,
  pow-suc 2 i,
  two_pow_lt i n (omega arith),
)
bit-clear_ne (suc n) w (suc i) (suc j) h k ne =
    ap (λ (t : ℕ). bit t j) (half-bit_and w _ _ (half-not_mask n i (omega arith)))
    ∙ bit-clear_ne n (w / 2) i j (omega arith) (omega arith) (λ e. ne (ap suc e))

-- A mask of low ones is a remainder, one more one at a time.
and_1 : (a : ℕ) → bit_and a 1 ≡ a % 2
and_1 a = omega (arith, bit_and_step a 1, bit_and-zero (a / 2))

and_3 : (a : ℕ) → bit_and a 3 ≡ a % 4
and_3 a = omega (arith, bit_and_step a 3, and_1 (a / 2))

and_7 : (a : ℕ) → bit_and a 7 ≡ a % 8
and_7 a = omega (arith, bit_and_step a 7, and_3 (a / 2))

and_15 : (a : ℕ) → bit_and a 15 ≡ a % 16
and_15 a = omega (arith, bit_and_step a 15, and_7 (a / 2))

and_31 : (a : ℕ) → bit_and a 31 ≡ a % 32
and_31 a = omega (arith, bit_and_step a 31, and_15 (a / 2))

and_63 : (a : ℕ) → bit_and a 63 ≡ a % 64
and_63 a = omega (arith, bit_and_step a 63, and_31 (a / 2))

pub bit_and_127 : (a : ℕ) → bit_and a 127 ≡ a % 128
bit_and_127 a = omega (arith, bit_and_step a 127, and_63 (a / 2))
