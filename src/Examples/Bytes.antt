-- ===== src/Examples/Bytes.antt =====
-- Byte buffers that obey the laws of `Packet.Buf`: integers as lists of bytes.
use native.Mathlib.Nat.{pow-suc, mod-lt, one-le-pow, div-add-mod'}
use raknet_rs.Prelude.{
  ℕ, zero, suc, ◌+◌, ◌*◌, ◌/◌, ◌%◌, ◌^◌, ◌≤◌, ◌<◌, ◌≡◌, refl, ap, List, [], ◌∷◌, ◌++◌, length, take,
  drop, if◌then◌else◌, leb, le→leb, arith,
}
use raknet_rs.Prelude.Outcome.{Outcome, ok, panic, ◌>>=◌}
use raknet_rs.Packet.Buf.{Buf}

abbrev pub put_le : ℕ → ℕ → List ℕ
put_le zero v = []
put_le (suc n) v = v % 256 ∷ put_le n (v / 256)

abbrev pub get_le : ℕ → List ℕ → Outcome (ℕ × List ℕ)
get_le zero buf = ok (0, buf)
get_le (suc n) [] = panic
get_le (suc n) (x ∷ buf) = get_le n buf >>= λ r. ok (r.0 * 256 + x, r.1)

abbrev pub put_be : ℕ → ℕ → List ℕ
put_be zero v = []
put_be (suc n) v = v / 256 ^ n ∷ put_be n (v % 256 ^ n)

abbrev pub get_be : ℕ → List ℕ → Outcome (ℕ × List ℕ)
get_be zero buf = ok (0, buf)
get_be (suc n) [] = panic
get_be (suc n) (x ∷ buf) = get_be n buf >>= λ r. ok (x * 256 ^ n + r.0, r.1)

pub length-put_le : (n v : ℕ) → length (put_le n v) ≡ n
length-put_le zero v = refl
length-put_le (suc n) v = ap suc (length-put_le n (v / 256))

pub length-put_be : (n v : ℕ) → length (put_be n v) ≡ n
length-put_be zero v = refl
length-put_be (suc n) v = ap suc (length-put_be n (v % 256 ^ n))

pub get_le-put_le :
    (n v : ℕ) (rest : List ℕ) → v < 256 ^ n → get_le n (put_le n v ++ rest) ≡ ok (v, rest)
get_le-put_le zero v rest h = ap (λ (k : ℕ). ok (k, rest)) (omega arith)
get_le-put_le (suc n) v rest h =
    rw (get_le-put_le n (v / 256) rest (omega (arith, pow-suc 256 n)))
      (ap (λ (k : ℕ). ok (k, rest)) (omega arith))

pub get_be-put_be :
    (n v : ℕ) (rest : List ℕ) → v < 256 ^ n → get_be n (put_be n v ++ rest) ≡ ok (v, rest)
get_be-put_be zero v rest h = ap (λ (k : ℕ). ok (k, rest)) (omega arith)
get_be-put_be (suc n) v rest h =
    rw (get_be-put_be n (v % 256 ^ n) rest (low n v)) (ap (λ (k : ℕ). ok (k, rest)) (parts n v))
  where
    low : (n v : ℕ) → v % 256 ^ n < 256 ^ n
    low n v = mod-lt v (one-le-pow n 256 (omega arith))

    parts : (n v : ℕ) → v / 256 ^ n * 256 ^ n + v % 256 ^ n ≡ v
    parts n v = div-add-mod' v (256 ^ n)

pub get_le_enough :
    (n : ℕ) (buf : List ℕ) → n ≤ length buf → (v : ℕ) × (get_le n buf ≡ ok (v, drop n buf))
get_le_enough zero buf h = (0, refl)
get_le_enough (suc n) [] h = absurd (omega arith)
get_le_enough (suc n) (x ∷ buf) h =
    let (v, e) = get_le_enough n buf (omega arith) in (v * 256 + x, rw e)

pub get_be_enough :
    (n : ℕ) (buf : List ℕ) → n ≤ length buf → (v : ℕ) × (get_be n buf ≡ ok (v, drop n buf))
get_be_enough zero buf h = (0, refl)
get_be_enough (suc n) [] h = absurd (omega arith)
get_be_enough (suc n) (x ∷ buf) h =
    let (v, e) = get_be_enough n buf (omega arith) in (x * 256 ^ n + v, rw e)

pub get_be_short : (n : ℕ) (buf : List ℕ) → length buf < n → get_be n buf ≡ panic
get_be_short zero buf h = absurd (omega arith)
get_be_short (suc n) [] h = refl
get_be_short (suc n) (x ∷ buf) h = rw (get_be_short n buf (omega arith))

abbrev pub cut : ℕ → List ℕ → Outcome (List ℕ × List ℕ)
cut n buf = if leb n (length buf) then ok (take n buf, drop n buf) else panic

pub cut_enough : (n : ℕ) (buf : List ℕ) → n ≤ length buf → cut n buf ≡ ok (take n buf, drop n buf)
cut_enough n buf h = rw (le→leb n (length buf) h)

instance abbrev pub bytes : Buf
bytes = record {
  get_uint = get_be;
  put_uint = put_be;
  get_uint_le = get_le;
  put_uint_le = put_le;
  split_to = cut;
  length-put_uint = length-put_be;
  length-put_uint_le = length-put_le;
  get_uint-put_uint = get_be-put_be;
  get_uint_le-put_uint_le = get_le-put_le;
  get_uint_enough = get_be_enough;
  get_uint_le_enough = get_le_enough;
  get_uint_short = get_be_short;
  split_to_enough = cut_enough;
}
