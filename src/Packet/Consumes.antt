-- ===== src/Packet/Consumes.antt =====
-- Readers that are safe on any buffer: they panic on none, and take their bytes off its front.
use raknet_rs.Prelude.{
  ℕ, ◌+◌, ◌≤◌, ◌≡◌, Bool, true, false, List, some, length, length-drop, drop, take, leb, leb→le,
  le→leb, arith, Bool-cases, inl, inr,
}
use raknet_rs.Prelude.Outcome.{Outcome, ok, err, panic, stuck, ◌>>=◌, ◌>>◌}
use raknet_rs.Packet.Buf.{Buf, require, read_if}

-- The outcome is no panic, and a value leaves at least `k` bytes of the buffer behind it.
abbrev pub Consumes {ℓ} : {A : Type ℓ} → ℕ → List ℕ → Outcome (A × List ℕ) → Type 0
Consumes k buf (ok (x, rest)) = length rest + k ≤ length buf
Consumes k buf (err e) = Unit
Consumes k buf panic = ⊥
Consumes k buf stuck = ⊥

-- The outcome is a value or an error.
abbrev pub Safe {ℓ} : {A : Type ℓ} → Outcome A → Type 0
Safe (ok x) = Unit
Safe (err e) = Unit
Safe panic = ⊥
Safe stuck = ⊥

pub Consumes-weaken {ℓ} :
    {A : Type ℓ} (j k i : ℕ) (buf rest : List ℕ) (r : Outcome (A × List ℕ))
    → length rest + j ≤ length buf
    → i ≤ j + k
    → Consumes k rest r
    → Consumes i buf r
Consumes-weaken j k i buf rest (ok (y, rest')) h e l = omega arith
Consumes-weaken j k i buf rest (err x) h e l = tt
Consumes-weaken j k i buf rest panic h e l = l
Consumes-weaken j k i buf rest stuck h e l = l

pub Consumes-bind {ℓ κ} :
    {A : Type ℓ} {B : Type κ} (j k i : ℕ) (buf : List ℕ) (m : Outcome (A × List ℕ))
    (f : A × List ℕ → Outcome (B × List ℕ))
    → i ≤ j + k
    → Consumes j buf m
    → ((x : A) (rest : List ℕ) → Consumes k rest (f (x, rest)))
    → Consumes i buf (m >>= f)
Consumes-bind j k i buf (ok (x, rest)) f e h next =
    Consumes-weaken j k i buf rest (f (x, rest)) h e (next x rest)
Consumes-bind j k i buf (err x) f e h next = tt
Consumes-bind j k i buf panic f e h next = h
Consumes-bind j k i buf stuck f e h next = h

-- Behind `read_buf!` the bytes that it asks for are there.
pub require-Consumes {ℓ} :
    {A : Type ℓ} (n k : ℕ) (buf : List ℕ) (r : Outcome (A × List ℕ))
    → (n ≤ length buf → Consumes k buf r)
    → Consumes k buf (require n buf >> r)
require-Consumes n k buf r h = elim (Bool-cases (leb n (length buf))) [
  | inl e ↦ rw e (h (leb→le _ _ e))
  | inr e ↦ rw e tt
]

-- `read_buf!` where the bytes are there.
pub require_then {ℓ} :
    {A : Type ℓ} (n : ℕ) (buf : List ℕ) (r x : Outcome A)
    → n ≤ length buf
    → r ≡ x
    → (require n buf >> r) ≡ x
require_then n buf r x h e = rw (le→leb n (length buf) h) e

pub read_if-Consumes {ℓ} :
    {A : Type ℓ} (flag : Bool) (n : ℕ) (read : List ℕ → Outcome (A × List ℕ)) (buf : List ℕ)
    → ((buf' : List ℕ) → n ≤ length buf' → Consumes 0 buf' (read buf'))
    → Consumes 0 buf (read_if flag n read buf)
unfolding read_if
read_if-Consumes false n read buf h = omega arith
read_if-Consumes true n read buf h =
    require-Consumes n 0 buf (read buf >>= λ r. ok (some r.0, r.1)) (λ k.
      Consumes-bind 0 0 0 buf (read buf) (λ r. ok (some r.0, r.1)) (omega arith) (h buf k)
        (λ x rest. omega arith))

module _ ⦃b : Buf⦄ where
  -- An integer that is there is read, and what follows goes on behind it.
  pub get_uint-Consumes {ℓ} :
      {A : Type ℓ} (n k i : ℕ) (buf : List ℕ) (f : ℕ × List ℕ → Outcome (A × List ℕ))
      → n ≤ length buf
      → i ≤ n + k
      → ((v : ℕ) → Consumes k (drop n buf) (f (v, drop n buf)))
      → Consumes i buf (b.get_uint n buf >>= f)
  get_uint-Consumes n k i buf f h e next =
      let (v, p) = b.get_uint_enough n buf h in
      rw p (
        Consumes-weaken n k i buf (drop n buf) (f (v, drop n buf))
          (omega (arith, length-drop n buf)) e (next v))

  pub get_uint_le-Consumes {ℓ} :
      {A : Type ℓ} (n k i : ℕ) (buf : List ℕ) (f : ℕ × List ℕ → Outcome (A × List ℕ))
      → n ≤ length buf
      → i ≤ n + k
      → ((v : ℕ) → Consumes k (drop n buf) (f (v, drop n buf)))
      → Consumes i buf (b.get_uint_le n buf >>= f)
  get_uint_le-Consumes n k i buf f h e next =
      let (v, p) = b.get_uint_le_enough n buf h in
      rw p (
        Consumes-weaken n k i buf (drop n buf) (f (v, drop n buf))
          (omega (arith, length-drop n buf)) e (next v))

  pub split_to-Consumes {ℓ} :
      {A : Type ℓ} (n k i : ℕ) (buf : List ℕ) (f : List ℕ × List ℕ → Outcome (A × List ℕ))
      → n ≤ length buf
      → i ≤ n + k
      → Consumes k (drop n buf) (f (take n buf, drop n buf))
      → Consumes i buf (b.split_to n buf >>= f)
  split_to-Consumes n k i buf f h e next = rw (b.split_to_enough n buf h) (
      Consumes-weaken n k i buf (drop n buf) (f (take n buf, drop n buf))
        (omega (arith, length-drop n buf)) e next)

  -- The same for any continuation, in terms of how many bytes are left.
  pub next_uint {ℓ} :
      {A : Type ℓ} (n : ℕ) (buf : List ℕ) (f : ℕ × List ℕ → Outcome (A × List ℕ))
      → n ≤ length buf
      → ((v : ℕ) (rest : List ℕ) → length rest + n ≡ length buf → Consumes 0 rest (f (v, rest)))
      → Consumes 0 buf (b.get_uint n buf >>= f)
  next_uint n buf f h next =
      get_uint-Consumes n 0 0 buf f h (omega arith)
        (λ v. next v (drop n buf) (omega (arith, length-drop n buf)))

  pub next_bytes {ℓ} :
      {A : Type ℓ} (n : ℕ) (buf : List ℕ) (f : List ℕ × List ℕ → Outcome (A × List ℕ))
      → n ≤ length buf
      → ((taken rest : List ℕ) → length rest + n ≡ length buf → Consumes 0 rest (f (taken, rest)))
      → Consumes 0 buf (b.split_to n buf >>= f)
  next_bytes n buf f h next =
      split_to-Consumes n 0 0 buf f h (omega arith)
        (next (take n buf) (drop n buf) (omega (arith, length-drop n buf)))

-- A value with the bytes behind it is a value.
pub Consumes-Safe {ℓ} :
    {A : Type ℓ} (k : ℕ) (buf : List ℕ) (r : Outcome (A × List ℕ)) → Consumes k buf r → Safe r
Consumes-Safe k buf (ok (x, rest)) c = tt
Consumes-Safe k buf (err e) c = tt
Consumes-Safe k buf panic c = c
Consumes-Safe k buf stuck c = c
