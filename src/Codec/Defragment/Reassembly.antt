-- ===== src/Codec/Defragment/Reassembly.antt =====
-- The parts of a message, in whatever order they arrive, become one frame with the whole body.
use raknet_rs.Prelude.{
  ℕ, ◌+◌, ◌<◌, ◌≡◌, refl, sym, ap, ◌∙◌, false, not, ◌&&◌, List, [], ◌∷◌, ◌++◌, map, Option, none,
  some, length, All, arith, ltb, ◌==◌, Bool-cases, inl, inr, lt→ltb, le→ltb_false, lt→leb_false,
}
use raknet_rs.Prelude.Outcome.{CodecError, Outcome, ok}
use raknet_rs.Prelude.Lru.{Lru}
use raknet_rs.Packet.Frame.{Frame, Fragment, reassembled}
use raknet_rs.Codec.Defragment.{
  FramePart, push, merge, merge_from, or_empty, DeFragment, push_back, keep_part, receive,
  receive_all,
}
use raknet_rs.Codec.Defragment.Heap.{length-push, pushes}

-- A frame is one of the `n` parts with the id.
abbrev pub IsPartOf : ℕ → ℕ → Frame → Type 0
IsPartOf n id f =
    (i : ℕ) × (f.fragment ≡ some (record { parted_size = n; parted_id = id; parted_index = i }))
    × (i < n)

abbrev pub index_in : Option Fragment → ℕ
index_in none = 0
index_in (some p) = p.parted_index

abbrev pub part_of : Frame → FramePart
part_of f = record { parted_index = index_in f.fragment; frame = f }

abbrev pub frames_of : List (ℕ × Frame) → List Frame
frames_of [] = []
frames_of ((seq_num, f) ∷ rest) = f ∷ frames_of rest

merge-some : (x : FramePart) (q : List FramePart) → (m : Frame) × (merge (push x q) ≡ ok m)
unfolding merge push merge_from
merge-some x [] = (x.frame, refl)
merge-some x (y ∷ q) = elim (Bool-cases (ltb x.parted_index y.parted_index)) [
  | inl e ↦ rw e (merge_from x.frame (y ∷ q), refl)
  | inr e ↦ rw e (merge_from y.frame (push x q), refl)
]

module _ ⦃l : Lru ℕ (List FramePart)⦄ (n id : ℕ) where
  -- The limit lets parts of this number through.
  abbrev pub Allowed : DeFragment → Type 0
  Allowed d = (not (d.limit_size == 0) && ltb d.limit_size n) ≡ false

  -- What is kept of the parts.
  abbrev pub kept : DeFragment → List FramePart
  kept d = or_empty (l.peek id d.parts)

  receive-keep :
      (seq_num i : ℕ) (f : Frame) (d : DeFragment)
      → Allowed d
      → i < n
      → receive seq_num f (some (record { parted_size = n; parted_id = id; parted_index = i })) d
        ≡ keep_part seq_num f (record { parted_size = n; parted_id = id; parted_index = i }) d
  unfolding receive
  receive-keep seq_num i f d a h = rw (lt→leb_false n i h, a) refl

  -- A part that does not complete the message.
  incomplete :
      (seq_num i : ℕ) (f : Frame) (d : DeFragment)
      → length (kept d) + 1 < n
      → let x : FramePart = record { parted_index = i; frame = f } in
        (d' : DeFragment) × (keep_part seq_num f
            (record { parted_size = n; parted_id = id; parted_index = i })
            d
          ≡ ok (none, d'))
        × (d'.buffer ≡ d.buffer)
        × (d'.limit_size ≡ d.limit_size)
        × (kept d' ≡ push x (kept d))
  unfolding keep_part
  incomplete seq_num i f d h =
      let x : FramePart = record { parted_index = i; frame = f } in
      let queue = push x (kept d) in
      (
        record d { parts = (l.put id queue d.parts).1 },
        rw (lt→ltb (length queue) n (omega (arith, length-push x (kept d)))) refl,
        refl,
        refl,
        rw (l.peek-put id queue d.parts) refl,
      )

  -- The part that completes it.
  complete :
      (seq_num i : ℕ) (f : Frame) (d : DeFragment)
      → length (kept d) + 1 ≡ n
      → let x : FramePart = record { parted_index = i; frame = f } in
        (m : Frame) × (d' : DeFragment) × (keep_part seq_num f
            (record { parted_size = n; parted_id = id; parted_index = i })
            d
          ≡ ok (none, d'))
        × (merge (push x (kept d)) ≡ ok m)
        × (d'.buffer ≡ d.buffer ++ (record { seq_num = seq_num; set = reassembled m } ∷ []))
        × (l.peek id d'.parts ≡ none)
  unfolding keep_part
  complete seq_num i f d h =
      let x : FramePart = record { parted_index = i; frame = f } in
      let queue = push x (kept d) in
      let (m, merged) = merge-some x (kept d) in
      let parts = (l.put id queue d.parts).1 in
      (
        m,
        push_back seq_num (reassembled m) (record d { parts = (l.pop id parts).1 }),
        rw
            (
              le→ltb_false (length queue) n (omega (arith, length-push x (kept d))),
              l.pop-old id parts,
              l.peek-put id queue d.parts,
              merged,
            )
            refl,
        merged,
        refl,
        l.peek-pop id parts,
      )

  received :
      (seq_num i : ℕ) (f : Frame) (d : DeFragment) (r : Outcome (Option CodecError × DeFragment))
      → Allowed d
      → f.fragment ≡ some (record { parted_size = n; parted_id = id; parted_index = i })
      → i < n
      → keep_part seq_num f (record { parted_size = n; parted_id = id; parted_index = i }) d ≡ r
      → receive seq_num f f.fragment d ≡ r
  received seq_num i f d r a e h k =
      ap (λ p. receive seq_num f p d) e ∙ (receive-keep seq_num i f d a h ∙ k)

  part-index :
      (i : ℕ) (f : Frame)
      → f.fragment ≡ some (record { parted_size = n; parted_id = id; parted_index = i })
      → part_of f ≡ record { parted_index = i; frame = f }
  part-index i f e = ap (λ p. record { parted_index = index_in p; frame = f }) e

  -- What the arrival of all parts that are missing comes to.
  pub record Reassembled (d : DeFragment) (parts : List FramePart)
      (r : Outcome (Option CodecError × DeFragment)) : Type 0 where
    pub merged : Frame
    pub seq_num : ℕ
    pub after : DeFragment
    pub returns : r ≡ ok (none, after)
    pub whole : merge parts ≡ ok merged
    pub delivered :
        after.buffer ≡ d.buffer ++ (record { seq_num = seq_num; set = reassembled merged } ∷ [])
    pub cleared : l.peek id after.parts ≡ none

  pub receive_all-Reassembled :
      (arrivals : List (ℕ × Frame)) (d : DeFragment)
      → Allowed d
      → All (IsPartOf n id) (frames_of arrivals)
      → length (kept d) + length arrivals ≡ n
      → 0 < length arrivals
      → Reassembled d (pushes (map part_of (frames_of arrivals)) (kept d)) (receive_all arrivals d)
  unfolding receive_all
  receive_all-Reassembled [] d a p h k = absurd (omega arith)
  receive_all-Reassembled ((seq_num, f) ∷ []) d a ((i, e, j), u) h k =
      let (m, d', stored, whole, delivered, cleared) = complete seq_num i f d (omega arith) in
      record {
        merged = m;
        seq_num = seq_num;
        after = d';
        returns = rw (received seq_num i f d _ a e j stored) refl;
        whole = rw (part-index i f e) whole;
        delivered = delivered;
        cleared = cleared;
      }
  receive_all-Reassembled ((seq_num, f) ∷ x ∷ rest) d a ((i, e, j), ps) h k =
      let part : FramePart = record { parted_index = i; frame = f } in
      let (d', stored, same_buffer, same_limit, queue) = incomplete seq_num i f d (omega arith) in
      let r =
        receive_all-Reassembled (x ∷ rest) d' (rw same_limit a) ps
          (omega (arith, ap length queue, length-push part (kept d))) (omega arith) in
      record {
        merged = r.merged;
        seq_num = r.seq_num;
        after = r.after;
        returns = rw (received seq_num i f d _ a e j stored) r.returns;
        whole = rw (part-index i f e, sym queue) r.whole;
        delivered =
            r.delivered
            ∙ ap (λ b. b ++ (record { seq_num = r.seq_num; set = reassembled r.merged } ∷ []))
                same_buffer;
        cleared = r.cleared;
      }
