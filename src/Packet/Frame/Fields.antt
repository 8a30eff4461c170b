-- ===== src/Packet/Frame/Fields.antt =====
-- The parts of a frame: what is written of each reads back.
use mathlib.Core.List.{append_assoc}
use raknet_rs.Prelude.{
  ℕ, ◌^◌, ◌≤◌, ◌<◌, ◌≡◌, refl, Bool, true, false, List, ◌++◌, Option, none, some, length,
  length-append, arith, take-append, drop-append,
}
use raknet_rs.Prelude.Outcome.{Outcome, ok}
use raknet_rs.Packet.Buf.{
  Buf, get_u24_le, put_u8, put_u16, put_u32, put_u24_le, require, read_if, write_some, is_some,
  Holds,
}
use raknet_rs.Packet.Reliability
use raknet_rs.Packet.Reliability.{
  Reliability, unreliable, unreliable_sequenced, reliable, reliable_ordered, reliable_sequenced,
  unreliable_with_ack_receipt, reliable_with_ack_receipt, reliable_ordered_with_ack_receipt,
}
use raknet_rs.Packet.Frame.{
  new_flags, parse_flags, Fragment, Ordered, Frame, read_fragment, write_fragment, read_ordered,
  write_ordered, read_fields,
}

abbrev pub FragmentFits : Fragment → Type 0
FragmentFits p = (p.parted_size < 2 ^ 32) × (p.parted_id < 2 ^ 16) × (p.parted_index < 2 ^ 32)

abbrev pub OrderedFits : Ordered → Type 0
OrderedFits o = (o.frame_index < 2 ^ 24) × (o.channel < 2 ^ 8)

-- A frame that carries what its flags announce, in the ranges of the fields.
pub record IsValid (f : Frame) : Type 0 where
  pub flags : f.flags ≡ new_flags f.flags.reliability f.flags.parted
  pub reliable : Reliability.is_reliable f.flags.reliability ≡ is_some f.reliable_frame_index
  pub sequenced : Reliability.is_sequenced f.flags.reliability ≡ is_some f.seq_frame_index
  pub ordered : Reliability.is_sequenced_or_ordered f.flags.reliability ≡ is_some f.ordered
  pub parted : f.flags.parted ≡ is_some f.fragment
  pub reliable_fits : Holds (λ i. i < 2 ^ 24) f.reliable_frame_index
  pub seq_fits : Holds (λ i. i < 2 ^ 24) f.seq_frame_index
  pub ordered_fits : Holds OrderedFits f.ordered
  pub fragment_fits : Holds FragmentFits f.fragment
  pub body_some : 0 < length f.body
  pub body_fits : length f.body < 8191

-- `Flags::parse` inverts `Flags::new`.
pub parse_flags-new_flags :
    (r : Reliability) (p : Bool) → parse_flags (new_flags r p).raw ≡ new_flags r p
unfolding parse_flags new_flags
parse_flags-new_flags unreliable true = refl
parse_flags-new_flags unreliable false = refl
parse_flags-new_flags unreliable_sequenced true = refl
parse_flags-new_flags unreliable_sequenced false = refl
parse_flags-new_flags reliable true = refl
parse_flags-new_flags reliable false = refl
parse_flags-new_flags reliable_ordered true = refl
parse_flags-new_flags reliable_ordered false = refl
parse_flags-new_flags reliable_sequenced true = refl
parse_flags-new_flags reliable_sequenced false = refl
parse_flags-new_flags unreliable_with_ack_receipt true = refl
parse_flags-new_flags unreliable_with_ack_receipt false = refl
parse_flags-new_flags reliable_with_ack_receipt true = refl
parse_flags-new_flags reliable_with_ack_receipt false = refl
parse_flags-new_flags reliable_ordered_with_ack_receipt true = refl
parse_flags-new_flags reliable_ordered_with_ack_receipt false = refl

pub new_flags-lt : (r : Reliability) (p : Bool) → (new_flags r p).raw < 256
unfolding new_flags
new_flags-lt unreliable true = omega arith
new_flags-lt r p = ground arith

pub require_ok : (n : ℕ) (buf : List ℕ) → n ≤ length buf → require n buf ≡ ok tt
require_ok n buf h = ground arith

-- An optional field reads back.
read_if-write_some {ℓ} :
    {A : Type ℓ} (P : A → Type 0) (n : ℕ) (read : List ℕ → Outcome (A × List ℕ))
    (write : A → List ℕ)
    → ((x : A) (rest : List ℕ) → P x → read (write x ++ rest) ≡ ok (x, rest))
    → ((x : A) → length (write x) ≡ n)
    → (present : Bool) (o : Option A) (rest : List ℕ) → present ≡ is_some o
    → Holds P o
    → read_if present n read (write_some write o ++ rest) ≡ ok (o, rest)
unfolding read_if
read_if-write_some P n read write back size true none rest e h = cc
read_if-write_some P n read write back size false (some x) rest e h = cc
read_if-write_some P n read write back size false none rest e h = refl
read_if-write_some P n read write back size true (some x) rest e h =
    rw
      (
        require_ok n (write x ++ rest) (omega (arith, length-append (write x) rest, size x)),
        back x rest h,
      )
      refl

module _ ⦃b : Buf⦄ where
  read_fragment-write_fragment :
      (p : Fragment) (rest : List ℕ)
      → FragmentFits p
      → read_fragment (write_fragment p ++ rest) ≡ ok (p, rest)
  unfolding read_fragment write_fragment
  read_fragment-write_fragment p rest (h, k, l) =
      rw
        (
          append_assoc,
          append_assoc,
          b.get_uint-put_uint 4 p.parted_size
              (put_u16 p.parted_id ++ (put_u32 p.parted_index ++ rest)) h,
          b.get_uint-put_uint 2 p.parted_id (put_u32 p.parted_index ++ rest) k,
          b.get_uint-put_uint 4 p.parted_index rest l,
        )
        refl

  length-write_fragment : (p : Fragment) → length (write_fragment p) ≡ 10
  unfolding write_fragment
  length-write_fragment p = omega (
    arith,
    length-append (put_u32 p.parted_size) (put_u16 p.parted_id ++ put_u32 p.parted_index),
    length-append (put_u16 p.parted_id) (put_u32 p.parted_index),
    b.length-put_uint 4 p.parted_size,
    b.length-put_uint 2 p.parted_id,
    b.length-put_uint 4 p.parted_index,
  )

  read_ordered-write_ordered :
      (o : Ordered) (rest : List ℕ)
      → OrderedFits o
      → read_ordered (write_ordered o ++ rest) ≡ ok (o, rest)
  unfolding read_ordered write_ordered
  read_ordered-write_ordered o rest (h, k) =
      rw
        (
          append_assoc,
          b.get_uint_le-put_uint_le 3 o.frame_index (put_u8 o.channel ++ rest) h,
          b.get_uint-put_uint 1 o.channel rest k,
        )
        refl

  length-write_ordered : (o : Ordered) → length (write_ordered o) ≡ 4
  unfolding write_ordered
  length-write_ordered o = omega (
    arith,
    length-append (put_u24_le o.frame_index) (put_u8 o.channel),
    b.length-put_uint_le 3 o.frame_index,
    b.length-put_uint 1 o.channel,
  )

  -- The bytes behind the flags and the length, with what follows the frame.
  abbrev pub field_bytes : Frame → List ℕ → List ℕ
  field_bytes f rest =
      write_some put_u24_le f.reliable_frame_index
      ++ (write_some put_u24_le f.seq_frame_index
          ++ (write_some write_ordered f.ordered
              ++ (write_some write_fragment f.fragment ++ (f.body ++ rest))))

  pub read_fields-written :
      (f : Frame) (rest : List ℕ)
      → IsValid f
      → read_fields f.flags (length f.body) (field_bytes f rest) ≡ ok (f, rest)
  unfolding read_fields
  read_fields-written f rest v =
      rw
        (
          read_if-write_some (λ i. i < 2 ^ 24) 3 get_u24_le put_u24_le (b.get_uint_le-put_uint_le 3)
              (b.length-put_uint_le 3) _ f.reliable_frame_index _ v.reliable v.reliable_fits,
          read_if-write_some (λ i. i < 2 ^ 24) 3 get_u24_le put_u24_le (b.get_uint_le-put_uint_le 3)
              (b.length-put_uint_le 3) _ f.seq_frame_index _ v.sequenced v.seq_fits,
          read_if-write_some OrderedFits 4 read_ordered write_ordered read_ordered-write_ordered
              length-write_ordered _ f.ordered _ v.ordered v.ordered_fits,
          read_if-write_some FragmentFits 10 read_fragment write_fragment
              read_fragment-write_fragment length-write_fragment _ f.fragment _ v.parted
              v.fragment_fits,
          require_ok (length f.body) (f.body ++ rest) (omega (arith, length-append f.body rest)),
          b.split_to_enough (length f.body) (f.body ++ rest)
              (omega (arith, length-append f.body rest)),
          take-append f.body rest,
          drop-append f.body rest,
        )
        refl
