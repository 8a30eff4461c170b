-- ===== src/Flush.antt =====
-- `FlushStrategy` of src/opts.rs: what a flush is to empty, and how much it has. A tag is an `isize`, -1
-- where its kind is not to be flushed; `link` and `buf` give what is empty.
use raknet_rs.Prelude.{
  ℕ, ◌+◌, ◌≡◌, refl, ap, Bool, true, false, ◌&&◌, List, [], ◌∷◌, if◌then◌else◌, arith,
}
use raknet_rs.Prelude.Outcome.{Outcome, ok, panic}

-- -1 or a count.
pub data Tag : Type 0 where
  disabled : Tag
  flushed : ℕ → Tag

pub record FlushStrategy : Type 0 where
  pub ack_tag : Tag
  pub nack_tag : Tag
  pub pack_tag : Tag

abbrev pub tag : Bool → Tag
tag true = flushed 0
tag false = disabled

-- `new`
abbrev pub new : Bool → Bool → Bool → FlushStrategy
new ack nack pack = record { ack_tag = tag ack; nack_tag = tag nack; pack_tag = tag pack }

-- `flushed_ack`, `flushed_nack` and `flushed_pack`, of their tags.
unfoldable pub flushed_count : Tag → Outcome ℕ
flushed_count disabled = panic
flushed_count (flushed n) = ok n

-- `flush_ack`, `flush_nack` and `flush_pack`.
unfoldable pub is_enabled : Tag → Bool
is_enabled disabled = false
is_enabled (flushed n) = true

-- What the strategy asks of the link and the buffer.
pub record Emptiness : Type 0 where
  pub outgoing_ack : Bool
  pub outgoing_nack : Bool
  pub unconnected : Bool
  pub buf : Bool

-- `ret &= empty`, where the kind is to be flushed.
unfoldable pub unless_disabled : Tag → Bool → Bool → Bool
unless_disabled disabled empty ret = ret
unless_disabled (flushed n) empty ret = ret && empty

unfoldable pub check_flushed : FlushStrategy → Emptiness → Bool
check_flushed s e =
    unless_disabled s.pack_tag (e.unconnected && e.buf)
      (unless_disabled s.nack_tag e.outgoing_nack (unless_disabled s.ack_tag e.outgoing_ack true))

-- `mark_flushed_ack`, `mark_flushed_nack` and `mark_flushed_pack`.
unfoldable pub mark_flushed : ℕ → Tag → Tag
mark_flushed count disabled = disabled
mark_flushed count (flushed n) = flushed (n + count)

unfoldable pub mark_all : (ack_cnt nack_cnt pack_cnt : ℕ) → FlushStrategy → FlushStrategy
mark_all ack_cnt nack_cnt pack_cnt s = record {
  ack_tag = mark_flushed ack_cnt s.ack_tag;
  nack_tag = mark_flushed nack_cnt s.nack_tag;
  pack_tag = mark_flushed pack_cnt s.pack_tag;
}

abbrev sum : List ℕ → ℕ
sum [] = 0
sum (n ∷ ns) = n + sum ns

-- The marks of several flushes.
abbrev pub marks : List ℕ → Tag → Tag
marks [] t = t
marks (n ∷ ns) t = marks ns (mark_flushed n t)

marks-flushed : (ns : List ℕ) (n : ℕ) → marks ns (flushed n) ≡ flushed (n + sum ns)
unfolding mark_flushed
marks-flushed [] n = ap flushed (omega arith)
marks-flushed (m ∷ ns) n = rw (marks-flushed ns (n + m)) (ap flushed (omega arith))

marks-disabled : (ns : List ℕ) → marks ns disabled ≡ disabled
unfolding mark_flushed
marks-disabled [] = refl
marks-disabled (n ∷ ns) = marks-disabled ns

-- After any flushes a new strategy gives the sum of what they have marked where the kind was asked for,
-- and panics where it was not.
pub flushed_count-marks :
    (asked : Bool) (ns : List ℕ)
    → flushed_count (marks ns (tag asked)) ≡ (if asked then ok (sum ns) else panic)
unfolding flushed_count
flushed_count-marks true ns = rw (marks-flushed ns 0) (ap (λ (n : ℕ). ok n) (omega arith))
flushed_count-marks false ns = rw (marks-disabled ns) refl
