-- ===== src/Packet/Buf.antt =====
-- What the packets use of a byte buffer (`Buf`, `BufMut`, `BytesMut::split_to` of the crate `bytes`,
-- which is not part of this repository). A buffer is the list of the bytes that it holds from its
-- position on; reading returns what is left, and what is written is appended.
-- The laws are the documented behaviour: an integer takes as many bytes as it has, reading it back
-- gives its value, and a read beyond the end panics.
use raknet_rs.Prelude.{
  ℕ, ◌^◌, ◌≤◌, ◌<◌, ◌≡◌, Bool, true, false, List, [], ◌++◌, Option, none, some, length, take, drop,
  leb,
}
use raknet_rs.Prelude.Outcome.{invalid_packet_length, Outcome, ok, panic, ◌>>=◌, ◌>>◌, guard}

pub record Buf : Type 0 where
  -- `get_uint(n)` and `put_uint(v, n)`: big endian; `_le`: little endian.
  pub get_uint : ℕ → List ℕ → Outcome (ℕ × List ℕ)
  pub put_uint : ℕ → ℕ → List ℕ
  pub get_uint_le : ℕ → List ℕ → Outcome (ℕ × List ℕ)
  pub put_uint_le : ℕ → ℕ → List ℕ
  pub split_to : ℕ → List ℕ → Outcome (List ℕ × List ℕ)
  pub length-put_uint : (n v : ℕ) → length (put_uint n v) ≡ n
  pub length-put_uint_le : (n v : ℕ) → length (put_uint_le n v) ≡ n
  pub get_uint-put_uint :
      (n v : ℕ) (rest : List ℕ) → v < 256 ^ n → get_uint n (put_uint n v ++ rest) ≡ ok (v, rest)
  pub get_uint_le-put_uint_le :
      (n v : ℕ) (rest : List ℕ)
      → v < 256 ^ n
      → get_uint_le n (put_uint_le n v ++ rest) ≡ ok (v, rest)
  pub get_uint_enough :
      (n : ℕ) (buf : List ℕ) → n ≤ length buf → (v : ℕ) × (get_uint n buf ≡ ok (v, drop n buf))
  pub get_uint_le_enough :
      (n : ℕ) (buf : List ℕ) → n ≤ length buf → (v : ℕ) × (get_uint_le n buf ≡ ok (v, drop n buf))
  pub get_uint_short : (n : ℕ) (buf : List ℕ) → length buf < n → get_uint n buf ≡ panic
  pub split_to_enough :
      (n : ℕ) (buf : List ℕ) → n ≤ length buf → split_to n buf ≡ ok (take n buf, drop n buf)

module _ ⦃b : Buf⦄ where
  abbrev pub get_u8 : List ℕ → Outcome (ℕ × List ℕ)
  get_u8 = b.get_uint 1

  abbrev pub get_u16 : List ℕ → Outcome (ℕ × List ℕ)
  get_u16 = b.get_uint 2

  abbrev pub get_u32 : List ℕ → Outcome (ℕ × List ℕ)
  get_u32 = b.get_uint 4

  -- `BufExt` and `BufMutExt` of src/utils/seq_num.rs.
  abbrev pub get_u24_le : List ℕ → Outcome (ℕ × List ℕ)
  get_u24_le = b.get_uint_le 3

  abbrev pub put_u8 : ℕ → List ℕ
  put_u8 = b.put_uint 1

  abbrev pub put_u16 : ℕ → List ℕ
  put_u16 = b.put_uint 2

  abbrev pub put_u32 : ℕ → List ℕ
  put_u32 = b.put_uint 4

  abbrev pub put_u24_le : ℕ → List ℕ
  put_u24_le = b.put_uint_le 3

-- The macro `read_buf!`: an error unless `n` bytes remain.
abbrev pub require : ℕ → List ℕ → Outcome (Unit {0})
require n buf = guard (leb n (length buf)) invalid_packet_length

-- `if flag { field = read_buf!(buf, n, Some(read(buf))) }`
unfoldable pub read_if {ℓ} :
    {A : Type ℓ} → Bool → ℕ → (List ℕ → Outcome (A × List ℕ)) → List ℕ → Outcome (Option A × List ℕ)
read_if false n read buf = ok (none, buf)
read_if true n read buf = do require n buf; (x, rest) ← read buf; ok (some x, rest)

-- `if let Some(x) = field { write(x) }`
abbrev pub write_some {ℓ} : {A : Type ℓ} → (A → List ℕ) → Option A → List ℕ
write_some write none = []
write_some write (some x) = write x

abbrev pub is_some {ℓ} : {A : Type ℓ} → Option A → Bool
is_some none = false
is_some (some x) = true

-- A property of what an option holds.
abbrev pub Holds {ℓ κ} : {A : Type ℓ} → (A → Type κ) → Option A → Type κ
Holds P none = Unit
Holds P (some x) = P x
