-- ===== src/Packet/Frame.antt =====
-- Frames: src/packet/connected/frame_set.rs, without the frame bodies.
pub mod Fields
pub mod RoundTrip
pub mod SetRoundTrip
pub mod Safety
pub mod Announced
use Prim.Native.Nat.{bit_and, bit_or}
use raknet_rs.Prelude.{
  ℕ, zero, suc, ◌+◌, ◌*◌, ◌/◌, ◌^◌, ◌%◌, Bool, true, false, not, List, [], ◌∷◌, ◌++◌, Option, none,
  some, if◌then◌else◌, ltb, leb, ◌==◌, length,
}
use raknet_rs.Prelude.Outcome.{
  invalid_packet_length, Outcome, ok, err, panic, stuck, ◌>>=◌, ◌>>◌, assert, guard,
}
use raknet_rs.Packet.Buf.{
  Buf, get_u8, get_u16, get_u32, get_u24_le, put_u8, put_u16, put_u32, put_u24_le, require, read_if,
  write_some, is_some,
}
use raknet_rs.Packet.Reliability
use raknet_rs.Packet.Reliability.{Reliability}

abbrev pub parted_flag : ℕ
parted_flag = 0b0001_0000

abbrev pub needs_b_and_as_flag : ℕ
needs_b_and_as_flag = 0b0000_0100

abbrev pub fragment_part_size : ℕ
fragment_part_size = 10

abbrev pub frame_set_header_size : ℕ
frame_set_header_size = 4

pub record Flags : Type 0 where
  pub raw : ℕ
  pub reliability : Reliability
  pub parted : Bool

-- `Flags::new`; the shift is within the byte.
unfoldable pub new_flags : Reliability → Bool → Flags
unfolding Reliability.to_u8
new_flags reliability parted =
    let raw = bit_or (Reliability.to_u8 reliability * 2 ^ 5) needs_b_and_as_flag in
    record {
      raw = if parted then bit_or raw parted_flag else raw;
      reliability = reliability;
      parted = parted;
    }

unfoldable pub parse_flags : ℕ → Flags
unfolding Reliability.of_u8
parse_flags raw = record {
  raw = raw;
  reliability = Reliability.of_u8 (raw / 2 ^ 5);
  parted = not (bit_and raw parted_flag == 0);
}

pub record Fragment : Type 0 where
  pub parted_size : ℕ
  pub parted_id : ℕ
  pub parted_index : ℕ

pub record Ordered : Type 0 where
  pub frame_index : ℕ
  pub channel : ℕ

pub record Frame : Type 0 where
  pub flags : Flags
  pub reliable_frame_index : Option ℕ
  pub seq_frame_index : Option ℕ
  pub ordered : Option Ordered
  pub fragment : Option Fragment
  pub body : List ℕ

pub record FrameSet {ℓ} (S : Type ℓ) : Type ℓ where
  pub seq_num : ℕ
  pub set : S

-- `Frame::size`
unfoldable pub frame_size : Frame → ℕ
frame_size f =
    Reliability.size f.flags.reliability
    + (if is_some f.fragment then fragment_part_size else 0)
    + length f.body

-- `u8::reverse_bits`, for a word of `n` bits.
abbrev pub reverse_bits : ℕ → ℕ → ℕ
reverse_bits zero x = 0
reverse_bits (suc n) x = x % 2 * 2 ^ n + reverse_bits n (x / 2)

-- Remove the parted flag and the fragment part.
unfoldable pub reassembled : Frame → Frame
reassembled f =
    if f.flags.parted
    then record f {
      flags = record f.flags {
        raw = bit_and f.flags.raw (reverse_bits 8 parted_flag);
        parted = false;
      };
      fragment = none;
    }
    else f

unfoldable pub is_nil : List Frame → Bool
is_nil [] = true
is_nil (x ∷ xs) = false

module _ ⦃b : Buf⦄ where
  unfoldable pub read_fragment : List ℕ → Outcome (Fragment × List ℕ)
  read_fragment buf = do
    (parted_size, buf₁) ← get_u32 buf
    (parted_id, buf₂) ← get_u16 buf₁
    (parted_index, buf₃) ← get_u32 buf₂
    ok (
      record { parted_size = parted_size; parted_id = parted_id; parted_index = parted_index },
      buf₃,
    )

  unfoldable pub write_fragment : Fragment → List ℕ
  write_fragment p = put_u32 p.parted_size ++ (put_u16 p.parted_id ++ put_u32 p.parted_index)

  unfoldable pub read_ordered : List ℕ → Outcome (Ordered × List ℕ)
  read_ordered buf = do
    (frame_index, buf₁) ← get_u24_le buf
    (channel, buf₂) ← get_u8 buf₁
    ok (record { frame_index = frame_index; channel = channel }, buf₂)

  unfoldable pub write_ordered : Ordered → List ℕ
  write_ordered o = put_u24_le o.frame_index ++ put_u8 o.channel

  -- The fields behind the flags and the length, and the body of `size` bytes.
  unfoldable pub read_fields : Flags → ℕ → List ℕ → Outcome (Frame × List ℕ)
  read_fields flags size buf = do
    let r = flags.reliability
    (reliable_frame_index, buf₁) ← read_if (Reliability.is_reliable r) 3 get_u24_le buf
    (seq_frame_index, buf₂) ← read_if (Reliability.is_sequenced r) 3 get_u24_le buf₁
    (ordered, buf₃) ← read_if (Reliability.is_sequenced_or_ordered r) 4 read_ordered buf₂
    (fragment, buf₄) ← read_if flags.parted 10 read_fragment buf₃
    require size buf₄
    (body, buf₅) ← b.split_to size buf₄
    ok (
      record {
        flags = flags;
        reliable_frame_index = reliable_frame_index;
        seq_frame_index = seq_frame_index;
        ordered = ordered;
        fragment = fragment;
        body = body;
      },
      buf₅,
    )

  -- `Frame::read`
  unfoldable pub read_frame : List ℕ → Outcome (Frame × List ℕ)
  read_frame buf = do
    require 3 buf
    (raw, buf₁) ← get_u8 buf
    (bits, buf₂) ← get_u16 buf₁
    let size = bits / 2 ^ 3
    guard (not (size == 0)) invalid_packet_length
    read_fields (parse_flags raw) size buf₂

  -- `Frame::write_ref`: what it appends to the buffer.
  unfoldable pub write_ref : Frame → Outcome (List ℕ)
  write_ref f = do
    assert (ltb (length f.body) (0xffff / 2 ^ 3))
    ok (
        put_u8 f.flags.raw
        ++ (put_u16 (length f.body * 2 ^ 3 % 2 ^ 16)
            ++ (write_some put_u24_le f.reliable_frame_index
                ++ (write_some put_u24_le f.seq_frame_index
                    ++ (write_some write_ordered f.ordered
                        ++ (write_some write_fragment f.fragment ++ f.body))))))

  -- The loop of `FrameSet::read`, `while buf.has_remaining()`.
  unfoldable pub read_frames : ℕ → List ℕ → Outcome (List Frame)
  read_frames fuel [] = ok []
  read_frames zero (x ∷ buf) = stuck
  read_frames (suc fuel) (x ∷ buf) = do
    (frame, rest) ← read_frame (x ∷ buf)
    frames ← read_frames fuel rest
    ok (frame ∷ frames)

  -- `FrameSet::read`. A frame takes a byte at least, so the bytes left are enough rounds.
  unfoldable pub read_frame_set : List ℕ → Outcome (FrameSet (List Frame))
  unfolding is_nil
  read_frame_set buf = do
    require 3 buf
    (seq_num, buf₁) ← get_u24_le buf
    frames ← read_frames (length buf₁) buf₁
    guard (not (is_nil frames)) invalid_packet_length
    ok (record { seq_num = seq_num; set = frames })

  unfoldable pub write_frames : List Frame → Outcome (List ℕ)
  write_frames [] = ok []
  write_frames (f ∷ fs) = do bytes ← write_ref f; rest ← write_frames fs; ok (bytes ++ rest)

  -- `FrameSet::write`
  unfoldable pub write_frame_set : FrameSet (List Frame) → Outcome (List ℕ)
  write_frame_set s = do bytes ← write_frames s.set; ok (put_u24_le s.seq_num ++ bytes)
