-- ===== src/Packet/Frame/RoundTrip.antt =====
-- What `write_ref` writes, `Frame::read` reads back.
use mathlib.Core.List.{append_assoc}
use raknet_rs.Prelude.{
  ℕ, ◌*◌, ◌/◌, ◌%◌, ◌^◌, ◌≤◌, ◌<◌, ◌≡◌, sym, ap, ◌∙◌, List, ◌++◌, length, length-append, arith,
  lt→ltb, ne→==,
}
use raknet_rs.Prelude.Outcome.{ok}
use raknet_rs.Packet.Buf.{Buf, put_u8, put_u16, put_u24_le, write_some}
use raknet_rs.Packet.Frame.{
  Flags, parse_flags, Frame, write_fragment, write_ordered, read_frame, write_ref,
}
use raknet_rs.Packet.Frame.Fields.{
  IsValid, parse_flags-new_flags, new_flags-lt, require_ok, field_bytes, read_fields-written,
}

module _ ⦃b : Buf⦄ where
  -- The bytes of a frame, with what follows it.
  abbrev pub frame_bytes : Frame → List ℕ → List ℕ
  frame_bytes f rest = put_u8 f.flags.raw ++ (put_u16 (length f.body * 8) ++ field_bytes f rest)

  parsed : (f : Frame) → IsValid f → parse_flags f.flags.raw ≡ f.flags
  parsed f v =
      ap (λ (g : Flags). parse_flags g.raw) v.flags
      ∙ parse_flags-new_flags f.flags.reliability f.flags.parted
      ∙ sym v.flags

  raw-lt : (f : Frame) → IsValid f → f.flags.raw < 256
  raw-lt f v = rw v.flags (new_flags-lt f.flags.reliability f.flags.parted)

  pub length-frame_bytes : (f : Frame) (rest : List ℕ) → 3 ≤ length (frame_bytes f rest)
  length-frame_bytes f rest = omega (
    arith,
    length-append (put_u8 f.flags.raw) (put_u16 (length f.body * 8) ++ field_bytes f rest),
    length-append (put_u16 (length f.body * 8)) (field_bytes f rest),
    b.length-put_uint 1 f.flags.raw,
    b.length-put_uint 2 (length f.body * 8),
  )

  pub read_frame-written :
      (f : Frame) (rest : List ℕ) → IsValid f → read_frame (frame_bytes f rest) ≡ ok (f, rest)
  unfolding read_frame
  read_frame-written f rest v =
      rw
        (
          require_ok 3 (frame_bytes f rest) (length-frame_bytes f rest),
          b.get_uint-put_uint 1 f.flags.raw (put_u16 (length f.body * 8) ++ field_bytes f rest)
              (raw-lt f v),
          b.get_uint-put_uint 2 (length f.body * 8) (field_bytes f rest)
              (omega (arith, v.body_fits)),
          eighth (length f.body),
          ne→== (length f.body) 0 (λ e. omega (arith, v.body_some)),
          parsed f v,
        )
        (read_fields-written f rest v)
    where
      eighth : (n : ℕ) → n * 8 / 2 ^ 3 ≡ n
      eighth n = omega arith

  -- The bytes that `write_ref` writes.
  abbrev pub written : Frame → List ℕ
  written f =
      put_u8 f.flags.raw
      ++ (put_u16 (length f.body * 8)
          ++ (write_some put_u24_le f.reliable_frame_index
              ++ (write_some put_u24_le f.seq_frame_index
                  ++ (write_some write_ordered f.ordered
                      ++ (write_some write_fragment f.fragment ++ f.body)))))

  pub write_ref-written : (f : Frame) → IsValid f → write_ref f ≡ ok (written f)
  unfolding write_ref
  write_ref-written f v = rw (lt→ltb (length f.body) 8191 v.body_fits, bits)
    where
      bits : length f.body * 2 ^ 3 % 2 ^ 16 ≡ length f.body * 8
      bits = omega (arith, v.body_fits)

  pub written-frame_bytes : (f : Frame) (rest : List ℕ) → written f ++ rest ≡ frame_bytes f rest
  written-frame_bytes f rest = simp append_assoc

  -- A valid frame is written without a panic, and `Frame::read` takes exactly its bytes off any
  -- buffer that begins with them, and returns it.
  pub read_frame-write_ref :
      (f : Frame)
      → IsValid f
      → (bytes : List ℕ) × (write_ref f ≡ ok bytes)
        × ((rest : List ℕ) → read_frame (bytes ++ rest) ≡ ok (f, rest))
  read_frame-write_ref f v = (
    written f,
    write_ref-written f v,
    λ rest. rw (written-frame_bytes f rest) (read_frame-written f rest v),
  )
