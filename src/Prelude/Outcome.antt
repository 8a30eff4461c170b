-- ===== src/Prelude/Outcome.antt =====
-- What an operation comes to: a value, an error that the caller gets, or a panic.
-- The errors are those of src/errors.rs.
use Prim.Native.Nat.{ℕ, zero, suc, ◌-◌, ◌≤◌, ◌<◌}
use mathlib.Core.List.{List, [], ◌∷◌}
use native.Mathlib.Omega.{arith}
use raknet_rs.Prelude.Tests.{leb}
use raknet_rs.Prelude.Lists.{length, get_or}
use mathlib.Core.Path.{◌≡◌, refl}
use mathlib.Core.Bool.{Bool, true, false}

-- `CodecError` of src/errors.rs, less the texts that the variants carry for a log.
pub data CodecError : Type 0 where
  invalid_ipv6_family : ℕ → CodecError
  invalid_ip_ver : ℕ → CodecError
  invalid_packet_type : ℕ → CodecError
  invalid_packet_length : CodecError
  invalid_record_type : ℕ → CodecError
  magic_not_matched : ℕ → ℕ → CodecError
  parted_frame : CodecError
  ordered_frame : CodecError
  ack_count_exceed : ℕ → CodecError

-- `panic` is a failed `assert!`, an index or subtraction out of range, or an `unwrap` of nothing.
-- `stuck` is no outcome of the program: a loop of the model used up its fuel.
pub data Outcome {ℓ} (A : Type ℓ) : Type ℓ where
  ok : A → Outcome A
  err : CodecError → Outcome A
  panic : Outcome A
  stuck : Outcome A

infixl 5 ◌>>=◌ ◌>>◌
abbrev pub ◌>>=◌ {ℓ κ} : {A : Type ℓ} {B : Type κ} → Outcome A → (A → Outcome B) → Outcome B
ok a >>= f = f a
err e >>= f = err e
panic >>= f = panic
stuck >>= f = stuck

abbrev pub ◌>>◌ {ℓ} : {B : Type ℓ} → Outcome (Unit {0}) → Outcome B → Outcome B
m >> k = m >>= λ _. k

-- `assert!`
abbrev pub assert : Bool → Outcome (Unit {0})
assert true = ok tt
assert false = panic

-- `return Err(e)` unless the test holds.
abbrev pub guard : Bool → CodecError → Outcome (Unit {0})
guard true e = ok tt
guard false e = err e

-- A subtraction of unsigned integers, checked.
unfoldable pub checked_sub : ℕ → ℕ → Outcome ℕ
checked_sub a b = assert (leb b a) >> ok (a - b)

-- An index into a vector, checked.
abbrev pub index {ℓ} : {A : Type ℓ} → List A → ℕ → Outcome A
index [] i = panic
index (x ∷ xs) zero = ok x
index (x ∷ xs) (suc i) = index xs i

pub checked_sub-ok : (a b : ℕ) → b ≤ a → checked_sub a b ≡ ok (a - b)
unfolding checked_sub
checked_sub-ok a b h = ground arith

pub index-ok {ℓ} :
    {A : Type ℓ} (xs : List A) (i : ℕ) (d : A) → i < length xs → index xs i ≡ ok (get_or xs i d)
index-ok [] i d h = absurd (omega arith)
index-ok (x ∷ xs) zero d h = refl
index-ok (x ∷ xs) (suc i) d h = index-ok xs i d (omega arith)

-- What a bind of a value comes to.
pub bind_ok {ℓ κ} :
    {A : Type ℓ} {B : Type κ} (m : Outcome A) (f : A → Outcome B) {r : B}
    → (m >>= f) ≡ ok r
    → (x : A) × (m ≡ ok x) × (f x ≡ ok r)
bind_ok (ok x) f e = (x, refl, e)
bind_ok (err c) f e = absurd cc
bind_ok panic f e = absurd cc
bind_ok stuck f e = absurd cc

pub ok_value {ℓ} : {A : Type ℓ} {x y : A} → ok x ≡ ok y → x ≡ y
ok_value e = cc
