-- ===== src/Packet/Ack/Wire.antt =====
-- `AckOrNack` on the wire: what `write` writes, `read` reads back, and where `read` panics.
use mathlib.Core.List.{append_assoc}
use raknet_rs.Prelude.{
  ℕ, suc, ◌+◌, ◌-◌, ◌*◌, ◌%◌, ◌^◌, ◌≤◌, ◌<◌, ◌≡◌, refl, List, [], ◌∷◌, ◌++◌, some, length,
  length-append, arith, All, le→leb, lt→ltb,
}
use raknet_rs.Prelude.Outcome.{ok, panic}
use raknet_rs.Seq
use raknet_rs.Packet.Buf.{Buf, put_u8, put_u16, put_u24_le, require}
use raknet_rs.Packet.Ack.{
  Record, range, single, AckOrNack, ack_cnt, total_cnt, max_acknowledgement_packets, read_record,
  write_record, read_records, read_ack, write_records, write_ack, extend_from,
}
use raknet_rs.Packet.Ack.Extend.{
  HasNext, Fits, expand, record_size, records_size, extend_from_lossless,
}

-- How many sequence numbers a record stands for.
abbrev pub count : Record → ℕ
count (range start end) = end - start + 1
count (single n) = 1

abbrev pub total : List Record → ℕ
total [] = 0
total (r ∷ rs) = count r + total rs

ack_cnt-count : (r : Record) → Fits r → ack_cnt r ≡ ok (count r)
unfolding ack_cnt
ack_cnt-count (range start end) (h, k, l) =
    rw (Seq.sub-ok end start h, Seq.add-ok (end - start) 1 l)
ack_cnt-count (single n) h = refl

-- `total_cnt` counts what the records stand for.
pub total_cnt-total : (rs : List Record) → All Fits rs → total_cnt rs ≡ ok (total rs)
unfolding total_cnt
total_cnt-total [] h = refl
total_cnt-total (r ∷ rs) (h, hs) = rw (ack_cnt-count r h, total_cnt-total rs hs) refl

-- A range that runs backwards cannot be counted.
ack_cnt-reversed : (start end : ℕ) → end < start → ack_cnt (range start end) ≡ panic
unfolding ack_cnt
ack_cnt-reversed start end h = rw (Seq.sub-panic end start h)

require_ok : (n : ℕ) (buf : List ℕ) → n ≤ length buf → require n buf ≡ ok tt
require_ok n buf h = ground arith

module _ ⦃b : Buf⦄ where
  pub length-write_record : (r : Record) → length (write_record r) ≡ record_size r
  unfolding write_record
  length-write_record (range start end) = omega (
    arith,
    length-append (put_u8 0) (put_u24_le start ++ put_u24_le end),
    length-append (put_u24_le start) (put_u24_le end),
    b.length-put_uint 1 0,
    b.length-put_uint_le 3 start,
    b.length-put_uint_le 3 end,
  )
  length-write_record (single n) = omega (
    arith,
    length-append (put_u8 1) (put_u24_le n),
    b.length-put_uint 1 1,
    b.length-put_uint_le 3 n,
  )

  pub length-write_records : (rs : List Record) → length (write_records rs) ≡ records_size rs
  length-write_records [] = refl
  length-write_records (r ∷ rs) = omega (
    arith,
    length-append (write_record r) (write_records rs),
    length-write_record r,
    length-write_records rs,
  )

  read_range :
      (start end : ℕ) (rest : List ℕ)
      → start < 2 ^ 24
      → end < 2 ^ 24
      → read_record (write_record (range start end) ++ rest) ≡ ok (range start end, rest)
  unfolding read_record write_record
  read_range start end rest h k =
      rw
        (
          append_assoc,
          append_assoc,
          require_ok 1 (put_u8 0 ++ (put_u24_le start ++ (put_u24_le end ++ rest))) (
              omega (
                arith,
                length-append (put_u8 0) (put_u24_le start ++ (put_u24_le end ++ rest)),
                b.length-put_uint 1 0,
              )),
          b.get_uint-put_uint 1 0 (put_u24_le start ++ (put_u24_le end ++ rest)) (omega arith),
          require_ok 6 (put_u24_le start ++ (put_u24_le end ++ rest)) (
              omega (
                arith,
                length-append (put_u24_le start) (put_u24_le end ++ rest),
                length-append (put_u24_le end) rest,
                b.length-put_uint_le 3 start,
                b.length-put_uint_le 3 end,
              )),
          b.get_uint_le-put_uint_le 3 start (put_u24_le end ++ rest) h,
          b.get_uint_le-put_uint_le 3 end rest k,
        )
        refl

  read_single :
      (n : ℕ) (rest : List ℕ)
      → n < 2 ^ 24
      → read_record (write_record (single n) ++ rest) ≡ ok (single n, rest)
  unfolding read_record write_record
  read_single n rest h =
      rw
        (
          append_assoc,
          require_ok 1 (put_u8 1 ++ (put_u24_le n ++ rest)) (
              omega
                (arith, length-append (put_u8 1) (put_u24_le n ++ rest), b.length-put_uint 1 1)),
          b.get_uint-put_uint 1 1 (put_u24_le n ++ rest) (omega arith),
          require_ok 3 (put_u24_le n ++ rest)
              (omega (arith, length-append (put_u24_le n) rest, b.length-put_uint_le 3 n)),
          b.get_uint_le-put_uint_le 3 n rest h,
        )
        refl

  read_record-write_record :
      (r : Record) (rest : List ℕ) → Fits r → read_record (write_record r ++ rest) ≡ ok (r, rest)
  read_record-write_record (range start end) rest (h, k, l) =
      read_range start end rest (omega arith) k
  read_record-write_record (single n) rest h = read_single n rest h

  read_records-write_records :
      (rs : List Record) (sofar : ℕ) (rest : List ℕ)
      → All Fits rs
      → sofar + total rs ≤ max_acknowledgement_packets
      → read_records (length rs) sofar (write_records rs ++ rest) ≡ ok (rs, rest)
  unfolding read_records
  read_records-write_records [] sofar rest h k = refl
  read_records-write_records (r ∷ rs) sofar rest (h, hs) k =
      rw
        (
          append_assoc,
          read_record-write_record r (write_records rs ++ rest) h,
          ack_cnt-count r h,
          le→leb (sofar + count r) max_acknowledgement_packets (omega arith),
          read_records-write_records rs (sofar + count r) rest hs (omega arith),
        )
        refl

  -- Records of 24-bit numbers whose ranges run forwards, for 16384 numbers at most in all, are written
  -- without a panic, and `AckOrNack::read` takes exactly their bytes off any buffer that begins with
  -- them, and returns them.
  pub read_ack-write_ack :
      (rs : AckOrNack) (rest : List ℕ)
      → All Fits rs
      → total rs ≤ 16384
      → (bytes : List ℕ) × (write_ack rs ≡ ok bytes) × (read_ack (bytes ++ rest) ≡ ok (rs, rest))
  unfolding read_ack write_ack
  read_ack-write_ack rs rest h k = (
    put_u16 (length rs) ++ write_records rs,
    rw (lt→ltb (length rs) 0xffff (omega (arith, few rs)), small),
    rw
        (
          append_assoc,
          b.get_uint-put_uint 2 (length rs) (write_records rs ++ rest) (omega (arith, few rs)),
        )
        (read_records-write_records rs 0 rest h (omega arith)),
  )
    where
      few : (rs : List Record) → length rs ≤ total rs
      few [] = omega arith
      few (range s e ∷ rs) = omega (arith, few rs)
      few (single n ∷ rs) = omega (arith, few rs)

      small : length rs % 2 ^ 16 ≡ length rs
      small = omega (arith, few rs)

  few_records : (rs : List Record) → 4 * length rs ≤ records_size rs
  few_records [] = omega arith
  few_records (range s e ∷ rs) = omega (arith, few_records rs)
  few_records (single n ∷ rs) = omega (arith, few_records rs)

  -- What `extend_from` makes of an iterator under an `mtu` that is a `u16` from 7 on is written without
  -- a panic, and the packet, its type in one more byte, is no longer than the `mtu`; its records stand
  -- for exactly the numbers taken from the iterator.
  pub write_ack-extend_from :
      (first : ℕ) (rest : List ℕ) (mtu : ℕ)
      → 7 ≤ mtu
      → mtu < 2 ^ 16
      → All HasNext (first ∷ rest)
      → (records : AckOrNack) × (left bytes : List ℕ) × (extend_from (first ∷ rest) mtu
          ≡ ok (some records, left))
        × (expand records ++ left ≡ first ∷ rest)
        × (write_ack records ≡ ok bytes)
        × (1 + length bytes ≤ mtu)
  unfolding write_ack
  write_ack-extend_from first rest mtu h k hs =
      let (records, left, e, kept, fits, forwards, taken) =
        extend_from_lossless first rest mtu h hs in
      (
        records,
        left,
        put_u16 (length records % 2 ^ 16) ++ write_records records,
        e,
        kept,
        rw (lt→ltb (length records) 0xffff (omega (arith, few_records records, fits))),
        omega (
          arith,
          fits,
          length-append (put_u16 (length records % 2 ^ 16)) (write_records records),
          b.length-put_uint 2 (length records % 2 ^ 16),
          length-write_records records,
        ),
      )

  -- `AckOrNack::read` panics on every packet whose first record is a range that runs backwards.
  pub read_ack-reversed :
      (n start end : ℕ) (rest : List ℕ)
      → n + 1 < 2 ^ 16
      → start < 2 ^ 24
      → end < start
      → read_ack (put_u16 (suc n) ++ (write_record (range start end) ++ rest)) ≡ panic
  unfolding read_ack read_records
  read_ack-reversed n start end rest h k l =
      rw
        (
          b.get_uint-put_uint 2 (suc n) (write_record (range start end) ++ rest) (omega arith),
          read_range start end rest k (omega arith),
          ack_cnt-reversed start end l,
        )
        refl
