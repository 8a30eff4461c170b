-- ===== src/Packet/Frame/Safety.antt =====
-- `Frame::read` and `FrameSet::read` on any bytes that a peer may send.
use raknet_rs.Prelude.{
  ℕ, zero, suc, ◌/◌, ◌^◌, ◌≤◌, not, List, [], ◌∷◌, length, drop, length-drop, ◌==◌, arith, leb,
  leb→le, Bool-cases, inl, inr,
}
use raknet_rs.Prelude.Outcome.{
  Outcome, ok, err, panic, stuck, invalid_packet_length, guard, ◌>>=◌, ◌>>◌,
}
use raknet_rs.Packet.Buf.{Buf, get_u24_le}
use raknet_rs.Packet.Consumes.{
  Consumes, Safe, Consumes-bind, require-Consumes, read_if-Consumes, get_uint-Consumes,
  get_uint_le-Consumes, split_to-Consumes,
}
use raknet_rs.Packet.Frame.{
  FrameSet, Flags, Frame, parse_flags, read_fragment, read_ordered, read_fields, read_frame,
  read_frames, read_frame_set, is_nil,
}

module _ ⦃b : Buf⦄ where
  get_u24_le-Consumes : (buf : List ℕ) → 3 ≤ length buf → Consumes 0 buf (get_u24_le buf)
  get_u24_le-Consumes buf h =
      let (v, p) = b.get_uint_le_enough 3 buf h in rw p (omega (arith, length-drop 3 buf))

  read_ordered-Consumes : (buf : List ℕ) → 4 ≤ length buf → Consumes 0 buf (read_ordered buf)
  unfolding read_ordered
  read_ordered-Consumes buf h = get_uint_le-Consumes 3 0 0 buf _ (omega arith) (omega arith) (λ i.
      get_uint-Consumes 1 0 0 (drop 3 buf) _ (omega (arith, length-drop 3 buf)) (omega arith)
        (λ c. omega arith))

  read_fragment-Consumes : (buf : List ℕ) → 10 ≤ length buf → Consumes 0 buf (read_fragment buf)
  unfolding read_fragment
  read_fragment-Consumes buf h = get_uint-Consumes 4 0 0 buf _ (omega arith) (omega arith) (λ s.
      get_uint-Consumes 2 0 0 (drop 4 buf) _ (omega (arith, length-drop 4 buf)) (omega arith) (λ i.
        get_uint-Consumes 4 0 0 (drop 2 (drop 4 buf)) _
          (omega (arith, length-drop 4 buf, length-drop 2 (drop 4 buf))) (omega arith)
          (λ j. omega arith)))

  read_fields-Consumes :
      (flags : Flags) (size : ℕ) (buf : List ℕ) → Consumes 0 buf (read_fields flags size buf)
  unfolding read_fields
  read_fields-Consumes flags size buf =
      Consumes-bind 0 0 0 buf _ _ (omega arith) (read_if-Consumes _ 3 _ buf get_u24_le-Consumes)
        (λ x₁ buf₁.
          Consumes-bind 0 0 0 buf₁ _ _ (omega arith)
            (read_if-Consumes _ 3 _ buf₁ get_u24_le-Consumes)
            (λ x₂ buf₂.
              Consumes-bind 0 0 0 buf₂ _ _ (omega arith)
                (read_if-Consumes _ 4 _ buf₂ read_ordered-Consumes)
                (λ x₃ buf₃.
                  Consumes-bind 0 0 0 buf₃ _ _ (omega arith)
                    (read_if-Consumes _ 10 _ buf₃ read_fragment-Consumes)
                    (λ x₄ buf₄.
                      require-Consumes size 0 buf₄ _
                        (λ h. split_to-Consumes size 0 0 buf₄ _ h (omega arith) (omega arith))))))

  -- `Frame::read` panics on no bytes, and takes three of them at least.
  pub read_frame-Consumes : (buf : List ℕ) → Consumes 3 buf (read_frame buf)
  unfolding read_frame
  read_frame-Consumes buf = require-Consumes 3 3 buf _ (λ h.
      get_uint-Consumes 1 2 3 buf _ (omega arith) (omega arith) (λ raw.
        get_uint-Consumes 2 0 2 (drop 1 buf) _ (omega (arith, length-drop 1 buf)) (omega arith)
          (λ bits. sized raw bits)))
    where
      sized :
          (raw bits : ℕ)
          → Consumes 0 (drop 2 (drop 1 buf)) (
              guard (not (bits / 2 ^ 3 == 0)) invalid_packet_length
              >> read_fields (parse_flags raw) (bits / 2 ^ 3) (drop 2 (drop 1 buf)))
      sized raw bits = elim (Bool-cases (bits / 2 ^ 3 == 0)) [
        | inl e ↦ rw e tt
        | inr e ↦ rw e (read_fields-Consumes (parse_flags raw) (bits / 2 ^ 3) (drop 2 (drop 1 buf)))
      ]

  -- The loop ends, on any bytes, with the rounds that it is given.
  read_frames-Safe : (fuel : ℕ) (buf : List ℕ) → length buf ≤ fuel → Safe (read_frames fuel buf)
  unfolding read_frames
  read_frames-Safe zero [] h = tt
  read_frames-Safe (suc fuel) [] h = tt
  read_frames-Safe zero (x ∷ buf) h = absurd (omega arith)
  read_frames-Safe (suc fuel) (x ∷ buf) h =
      first (read_frame (x ∷ buf)) (read_frame-Consumes (x ∷ buf)) (read_frames-Safe fuel)
    where
      then : (fs : Outcome (List Frame)) (f : Frame) → Safe fs → Safe (fs >>= λ r. ok (f ∷ r))
      then (ok fs) f s = tt
      then (err e) f s = tt
      then panic f s = s
      then stuck f s = s

      first :
          (r : Outcome (Frame × List ℕ))
          → Consumes 3 (x ∷ buf) r
          → ((rest : List ℕ) → length rest ≤ fuel → Safe (read_frames fuel rest))
          → Safe (r >>= λ p. (read_frames fuel p.1 >>= λ fs. ok (p.0 ∷ fs)))
      first (ok (f, rest)) c ih = then (read_frames fuel rest) f (ih rest (omega arith))
      first (err e) c ih = tt
      first panic c ih = c
      first stuck c ih = c

  -- `FrameSet::read` ends on every buffer with a frame set or an error: no bytes that a peer sends as
  -- a frame set make it panic or run on.
  pub read_frame_set-Safe : (buf : List ℕ) → Safe (read_frame_set buf)
  unfolding read_frame_set
  read_frame_set-Safe buf = elim (Bool-cases (leb 3 (length buf))) [
    | inr e ↦ rw e tt
    | inl e ↦
        let (n, p) = b.get_uint_le_enough 3 buf (leb→le _ _ e) in
        rw (e, p)
          (checked n (read_frames (length (drop 3 buf)) (drop 3 buf))
            (read_frames-Safe (length (drop 3 buf)) (drop 3 buf) (omega arith)))
  ]
    where
      checked :
          (n : ℕ) (r : Outcome (List Frame))
          → Safe r
          → Safe {A = FrameSet (List Frame)} (
              r >>= λ frames.
              (guard (not (is_nil frames)) invalid_packet_length
                >> ok (record { seq_num = n; set = frames })))
      checked n (ok []) s = tt
      checked n (ok (f ∷ fs)) s = tt
      checked n (err e) s = tt
      checked n panic s = s
      checked n stuck s = s
