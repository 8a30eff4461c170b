-- ===== src/Seq.antt =====
-- `u24` of src/utils/seq_num.rs: sequence numbers of 24 bits, kept in a `u32`.
-- A sequence number is a natural number. The operations check their result: a sum that leaves the
-- 24 bits fails an `assert!`, a difference below 0 panics (overflow checks are on, as the tests of
-- that file expect), and a conversion of a wider number fails a `debug_assert!`.
use raknet_rs.Prelude.{ℕ, ◌+◌, ◌-◌, ◌/◌, ◌%◌, ◌^◌, ◌<◌, ◌≤◌, ◌≡◌, ◌==◌, leb, arith}
use raknet_rs.Prelude.Outcome.{Outcome, ok, panic, ◌>>◌, assert}

abbrev pub u24_end : ℕ
u24_end = 2 ^ 24

abbrev pub IsU24 : ℕ → Type 0
IsU24 n = n < u24_end

-- `checked_add`, and `AddAssign`, which makes the same test on the sum.
unfoldable pub add : ℕ → ℕ → Outcome ℕ
add a b = do let value = a + b; assert (value / 2 ^ 24 == 0); ok value

-- `Sub` and `SubAssign`.
unfoldable pub sub : ℕ → ℕ → Outcome ℕ
sub a b = do assert (leb b a); ok (a - b)

-- `From` for a primitive integer, which `as u32` cuts to 32 bits first.
unfoldable pub of_int : ℕ → Outcome ℕ
of_int value = do let bits = value % 2 ^ 32; assert (bits / 2 ^ 24 == 0); ok bits

pub add-ok : (a b : ℕ) → a + b < u24_end → add a b ≡ ok (a + b)
unfolding add
add-ok a b h = ground arith

pub add-panic : (a b : ℕ) → u24_end ≤ a + b → add a b ≡ panic
unfolding add
add-panic a b h = ground arith

pub sub-ok : (a b : ℕ) → b ≤ a → sub a b ≡ ok (a - b)
unfolding sub
sub-ok a b h = ground arith

pub sub-panic : (a b : ℕ) → a < b → sub a b ≡ panic
unfolding sub
sub-panic a b h = ground arith
