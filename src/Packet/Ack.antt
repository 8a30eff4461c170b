-- ===== src/Packet/Ack.antt =====
-- `AckOrNack` and `Record` of src/packet/connected/ack.rs: acknowledged sequence numbers, packed into
-- single numbers and ranges.
pub mod Extend
pub mod Wire
pub mod Safety
use raknet_rs.Prelude.{
  ℕ, zero, suc, ◌+◌, ◌-◌, ◌*◌, ◌%◌, ◌^◌, ◌≤◌, ◌<◌, Bool, true, false, not, List, [], ◌∷◌, ◌++◌,
  Option, none, some, if◌then◌else◌, ltb, leb, ◌==◌, length,
}
use raknet_rs.Prelude.Outcome.{
  invalid_record_type, ack_count_exceed, Outcome, ok, err, panic, ◌>>=◌, ◌>>◌, assert, guard,
}
use raknet_rs.Seq
use raknet_rs.Packet.Buf.{Buf, get_u8, get_u16, get_u24_le, put_u8, put_u16, put_u24_le, require}

pub data Record : Type 0 where
  range : ℕ → ℕ → Record
  single : ℕ → Record

-- `AckOrNack { records }`
abbrev pub AckOrNack : Type 0
AckOrNack = List Record

-- `if first != last { Range(first, last) } else { Single(first) }`
abbrev pub record_of : ℕ → ℕ → Record
record_of first last = if first == last then single first else range first last

-- The loop of `extend_from`. The list is what the iterator has not given yet; the result is the
-- records and what is left of the iterator. `mtu` is a `u16` whose subtractions are checked.
unfoldable pub extend_loop : List ℕ → ℕ → ℕ → Bool → ℕ → Outcome (List Record × List ℕ)
extend_loop [] first last upgrade mtu = ok (record_of first last ∷ [], [])
extend_loop (seq_num ∷ rest) first last upgrade mtu =
    let longer = do
      assert (if upgrade then leb 3 mtu else true)
      extend_loop rest first seq_num false (if upgrade then mtu - 3 else mtu)
    in let another = do
      assert (leb 4 mtu)
      (records, left) ← extend_loop rest seq_num seq_num true (mtu - 4)
      ok (record_of first last ∷ records, left)
      in if ltb mtu 4
        then ok (record_of first last ∷ [], seq_num ∷ rest)
        else do next ← Seq.add last 1; if seq_num == next then longer else another

-- `extend_from`: `none` if the iterator is empty.
unfoldable pub extend_from : List ℕ → ℕ → Outcome (Option AckOrNack × List ℕ)
extend_from [] mtu = do assert (leb 7 mtu); ok (none, [])
extend_from (first ∷ rest) mtu = do
  assert (leb 7 mtu)
  (records, left) ← extend_loop rest first first true (mtu - 7)
  ok (some records, left)

-- `Record::ack_cnt`
unfoldable pub ack_cnt : Record → Outcome ℕ
ack_cnt (range start end) = do d ← Seq.sub end start; Seq.add d 1
ack_cnt (single n) = ok 1

-- `AckOrNack::total_cnt`
unfoldable pub total_cnt : AckOrNack → Outcome ℕ
unfolding ack_cnt
total_cnt [] = ok 0
total_cnt (r ∷ rs) = do n ← ack_cnt r; m ← total_cnt rs; ok (n + m)

abbrev pub max_acknowledgement_packets : ℕ
max_acknowledgement_packets = 16384

module _ ⦃b : Buf⦄ where
  unfoldable pub read_record : List ℕ → Outcome (Record × List ℕ)
  read_record buf = do
    require 1 buf
    (record_type, buf₁) ← get_u8 buf
    if record_type == 0
        then (do
          require 6 buf₁
          (start, buf₂) ← get_u24_le buf₁
          (end, buf₃) ← get_u24_le buf₂
          ok (range start end, buf₃))
        else (if record_type == 1
            then (do require 3 buf₁; (n, buf₂) ← get_u24_le buf₁; ok (single n, buf₂))
            else err (invalid_record_type record_type))

  unfoldable pub write_record : Record → List ℕ
  write_record (range start end) = put_u8 0 ++ (put_u24_le start ++ put_u24_le end)
  write_record (single n) = put_u8 1 ++ put_u24_le n

  -- `for _ in 0..record_cnt`, with the sum of the counts so far.
  unfoldable pub read_records : ℕ → ℕ → List ℕ → Outcome (List Record × List ℕ)
  read_records zero total buf = ok ([], buf)
  read_records (suc n) total buf = do
    (r, buf₁) ← read_record buf
    count ← ack_cnt r
    guard (leb (total + count) max_acknowledgement_packets) (ack_count_exceed (total + count))
    (rs, buf₂) ← read_records n (total + count) buf₁
    ok (r ∷ rs, buf₂)

  -- `AckOrNack::read`. The count is read with no test of the bytes left.
  unfoldable pub read_ack : List ℕ → Outcome (AckOrNack × List ℕ)
  read_ack buf = do (record_cnt, buf₁) ← get_u16 buf; read_records record_cnt 0 buf₁

  abbrev pub write_records : List Record → List ℕ
  write_records [] = []
  write_records (r ∷ rs) = write_record r ++ write_records rs

  -- `AckOrNack::write`
  unfoldable pub write_ack : AckOrNack → Outcome (List ℕ)
  write_ack records = do
    assert (ltb (length records) 0xffff)
    ok (put_u16 (length records % 2 ^ 16) ++ write_records records)
