-- ===== src/Packet/Frame/SetRoundTrip.antt =====
-- What `FrameSet::write` writes, `FrameSet::read` reads back.
use mathlib.Core.List.{append-nil}
use raknet_rs.Prelude.{
  ℕ, zero, suc, ◌^◌, ◌≤◌, ◌<◌, ◌≡◌, refl, ap, List, [], ◌∷◌, ◌++◌, length, length-append, arith,
  All,
}
use raknet_rs.Prelude.Outcome.{ok}
use raknet_rs.Packet.Buf.{Buf, put_u24_le}
use raknet_rs.Packet.Frame.{
  Frame, FrameSet, read_frame, read_frames, read_frame_set, write_frames, write_frame_set,
}
use raknet_rs.Packet.Frame.Fields.{IsValid, require_ok}
use raknet_rs.Packet.Frame.RoundTrip.{
  written, length-frame_bytes, write_ref-written, written-frame_bytes, read_frame-written,
}

module _ ⦃b : Buf⦄ where
  -- One round of the loop of `FrameSet::read`.
  read_frames_step :
      (fuel : ℕ) (buf rest : List ℕ) (f : Frame) (fs : List Frame)
      → 0 < length buf
      → read_frame buf ≡ ok (f, rest)
      → read_frames fuel rest ≡ ok fs
      → read_frames (suc fuel) buf ≡ ok (f ∷ fs)
  unfolding read_frames
  read_frames_step fuel [] rest f fs h e k = absurd (omega arith)
  read_frames_step fuel (x ∷ buf) rest f fs h e k = rw (e, k)

  length-written : (f : Frame) → 3 ≤ length (written f)
  length-written f = omega (
    arith,
    ap length (written-frame_bytes f []),
    ap length (append-nil (written f)),
    length-frame_bytes f [],
  )

  rounds :
      (f : Frame) (fs : List Frame) (bytes : List ℕ) (fuel : ℕ)
      → IsValid f
      → ((fuel : ℕ) → length bytes ≤ fuel → read_frames fuel bytes ≡ ok fs)
      → length (written f ++ bytes) ≤ fuel
      → read_frames fuel (written f ++ bytes) ≡ ok (f ∷ fs)
  rounds f fs bytes zero v back h =
      absurd (omega (arith, length-written f, length-append (written f) bytes))
  rounds f fs bytes (suc fuel) v back h =
      read_frames_step fuel (written f ++ bytes) bytes f fs
        (omega (arith, length-written f, length-append (written f) bytes))
        (rw (written-frame_bytes f bytes) (read_frame-written f bytes v))
        (back fuel (omega (arith, length-written f, length-append (written f) bytes)))

  write_frames-read_frames :
      (fs : List Frame)
      → All IsValid fs
      → (bytes : List ℕ) × (write_frames fs ≡ ok bytes)
        × ((fuel : ℕ) → length bytes ≤ fuel → read_frames fuel bytes ≡ ok fs)
  unfolding write_frames
  write_frames-read_frames [] h = ([], refl, λ fuel k. none_left fuel)
    where
      none_left : (fuel : ℕ) → read_frames fuel [] ≡ ok []
      none_left zero = unfold read_frames in refl
      none_left (suc fuel) = unfold read_frames in refl
  write_frames-read_frames (f ∷ fs) (v, vs) =
      let (bytes, e, back) = write_frames-read_frames fs vs in
      (written f ++ bytes, rw (write_ref-written f v, e), λ fuel h. rounds f fs bytes fuel v back h)

  -- A frame set of valid frames, at least one, is written without a panic, and `FrameSet::read`
  -- reads from its bytes the same number and the same frames in order.
  pub read_frame_set-write_frame_set :
      (n : ℕ) (f : Frame) (fs : List Frame)
      → n < 2 ^ 24
      → All IsValid (f ∷ fs)
      → let s : FrameSet (List Frame) = record { seq_num = n; set = f ∷ fs } in
        (bytes : List ℕ) × (write_frame_set s ≡ ok bytes) × (read_frame_set bytes ≡ ok s)
  unfolding write_frame_set read_frame_set
  read_frame_set-write_frame_set n f fs h v =
      let (bytes, e, back) = write_frames-read_frames (f ∷ fs) v in
      (
        put_u24_le n ++ bytes,
        rw e,
        rw
            (
              require_ok 3 (put_u24_le n ++ bytes)
                  (omega (arith, length-append (put_u24_le n) bytes, b.length-put_uint_le 3 n)),
              b.get_uint_le-put_uint_le 3 n bytes h,
              back (length bytes) (omega arith),
            )
            refl,
      )
