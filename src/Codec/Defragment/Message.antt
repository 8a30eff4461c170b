-- ===== src/Codec/Defragment/Message.antt =====
-- A message that `Fragment` has split comes out of `DeFragment` whole.
use mathlib.Core.List.{Permᴰ, append_assoc, append-nil}
use raknet_rs.Prelude.{
  ℕ, suc, ◌+◌, ◌*◌, ◌^◌, ◌≤◌, ◌<◌, ◌≡◌, refl, sym, ap, ◌∙◌, true, false, List, [], ◌∷◌, ◌++◌, map,
  Option, none, some, length, All, arith,
}
use raknet_rs.Prelude.Outcome.{CodecError, Outcome, ok}
use raknet_rs.Prelude.Lru.{Lru}
use raknet_rs.Packet.Buf.{Buf}
use raknet_rs.Packet.Reliability
use raknet_rs.Packet.Frame.{Frame, reassembled, new_flags}
use raknet_rs.Codec.Fragment.{Plan, split_loop}
use raknet_rs.Codec.Fragment.Split.{ordering, bodies, AreParts, Parts, split_loop-Parts}
use raknet_rs.Codec.Defragment.{
  FramePart, push, merge, merge_from, or_empty, DeFragment, receive_all,
}
use raknet_rs.Codec.Defragment.Heap.{
  pushes, behind, pushes-perm, pushes-in_order, Numbered, Numbered-Distinct, All-perm,
}
use raknet_rs.Codec.Defragment.Reassembly.{
  IsPartOf, index_in, part_of, frames_of, Allowed, kept, receive_all-Reassembled,
}

merge_from-bodies :
    (acc : Frame) (fs : List Frame)
    → merge_from acc (map part_of fs) ≡ record acc { body = acc.body ++ bodies fs }
unfolding merge_from
merge_from-bodies acc [] = ap (λ b. record acc { body = b }) (sym (append-nil acc.body))
merge_from-bodies acc (f ∷ fs) =
    merge_from-bodies (record acc { body = acc.body ++ f.body }) fs
    ∙ ap (λ b. record acc { body = b }) (append_assoc acc.body f.body (bodies fs))

merge-bodies :
    (f : Frame) (fs : List Frame) (m : Frame)
    → merge (map part_of (f ∷ fs)) ≡ ok m
    → m ≡ record f { body = f.body ++ bodies fs }
unfolding merge
merge-bodies f fs m e = cc (e, merge_from-bodies f fs)

-- A frame without what made it a part.
pub record Whole (f g : Frame) : Type 0 where
  pub parted : g.flags.parted ≡ false
  pub reliability : g.flags.reliability ≡ f.flags.reliability
  pub reliable_frame_index : g.reliable_frame_index ≡ f.reliable_frame_index
  pub seq_frame_index : g.seq_frame_index ≡ f.seq_frame_index
  pub ordered : g.ordered ≡ f.ordered
  pub fragment : g.fragment ≡ none
  pub body : g.body ≡ f.body

reassembled-Whole : (f : Frame) → f.flags.parted ≡ true → Whole f (reassembled f)
unfolding reassembled
reassembled-Whole f e = record {
  parted = rw e refl;
  reliability = rw e refl;
  reliable_frame_index = rw e refl;
  seq_frame_index = rw e refl;
  ordered = rw e refl;
  fragment = rw e refl;
  body = rw e refl;
}

Numbered-parts :
    (p : Plan) (i w : ℕ) (fs : List Frame) → AreParts p i w fs → Numbered i (map part_of fs)
Numbered-parts p i w [] a = tt
Numbered-parts p i w (f ∷ fs) (a, as₁) =
    (ap index_in a.fragment, Numbered-parts p (i + 1) (w + 1) fs as₁)

parts-IsPartOf :
    (p : Plan) (i w : ℕ) (fs : List Frame)
    → i + length fs ≤ p.parted_size
    → AreParts p i w fs
    → All (IsPartOf p.parted_size p.parted_id) fs
parts-IsPartOf p i w [] h a = tt
parts-IsPartOf p i w (f ∷ fs) h (a, as₁) =
    ((i, a.fragment, omega arith), parts-IsPartOf p (i + 1) (w + 1) fs (omega arith) as₁)

perm-map {ℓ κ} :
    {A : Type ℓ} {B : Type κ} (f : A → B) (xs ys : List A)
    → Permᴰ xs ys
    → Permᴰ (map f xs) (map f ys)
perm-map f xs ys Permᴰ.nil = Permᴰ.nil
perm-map f xs ys (Permᴰ.cons e p) = Permᴰ.cons (ap f e) (perm-map f _ _ p)
perm-map f xs ys (Permᴰ.swap e k) = Permᴰ.swap (ap f e) (ap f k)
perm-map f xs ys (Permᴰ.trans p q) = Permᴰ.trans (perm-map f _ _ p) (perm-map f _ _ q)

perm-length {ℓ} : {A : Type ℓ} (xs ys : List A) → Permᴰ xs ys → length xs ≡ length ys
perm-length xs ys Permᴰ.nil = refl
perm-length xs ys (Permᴰ.cons e p) = ap suc (perm-length _ _ p)
perm-length xs ys (Permᴰ.swap e k) = refl
perm-length xs ys (Permᴰ.trans p q) = perm-length _ _ p ∙ perm-length _ _ q

length-frames_of : (arrivals : List (ℕ × Frame)) → length (frames_of arrivals) ≡ length arrivals
length-frames_of [] = refl
length-frames_of (x ∷ rest) = ap suc (length-frames_of rest)

module _ ⦃l : Lru ℕ (List FramePart)⦄ where
  -- What the parts of a message come to.
  pub record Delivered (p : Plan) (w : ℕ) (body : List ℕ) (d : DeFragment)
      (r : Outcome (Option CodecError × DeFragment)) : Type 0 where
    pub seq_num : ℕ
    pub frame : Frame
    pub after : DeFragment
    pub returns : r ≡ ok (none, after)
    pub delivered : after.buffer ≡ d.buffer ++ (record { seq_num = seq_num; set = frame } ∷ [])
    pub cleared : l.peek p.parted_id after.parts ≡ none
    pub parted : frame.flags.parted ≡ false
    pub reliability : frame.flags.reliability ≡ p.reliability
    pub reliable_frame_index : frame.reliable_frame_index ≡ some w
    pub seq_frame_index : frame.seq_frame_index ≡ none
    pub ordered : frame.ordered ≡ ordering p.reliability p.channel p.frame_index
    pub fragment : frame.fragment ≡ none
    pub whole_body : frame.body ≡ body

  parts-Delivered :
      (p : Plan) (w : ℕ) (fs : List Frame) (arrivals : List (ℕ × Frame)) (d : DeFragment)
      → AreParts p 0 w fs
      → length fs ≡ p.parted_size
      → 0 < p.parted_size
      → Allowed p.parted_size p.parted_id d
      → l.peek p.parted_id d.parts ≡ none
      → Permᴰ fs (frames_of arrivals)
      → Delivered p w (bodies fs) d (receive_all arrivals d)
  parts-Delivered p w [] arrivals d parts n pos a fresh perm = absurd (omega arith)
  parts-Delivered p w (f ∷ fs) arrivals d (first, parts) n pos a fresh perm =
      let numbered = Numbered-parts p 0 w (f ∷ fs) (first, parts) in
      let r =
        receive_all-Reassembled p.parted_size p.parted_id arrivals d a
          (All-perm (IsPartOf p.parted_size p.parted_id) (f ∷ fs) (frames_of arrivals) perm
            (parts-IsPartOf p 0 w (f ∷ fs) (omega arith) (first, parts)))
          (omega (arith, none_kept, arrived)) (omega (arith, arrived)) in
      let (same, apart) =
        pushes-perm (map part_of (f ∷ fs)) (map part_of (frames_of arrivals))
          (kept p.parted_size p.parted_id d) (perm-map part_of (f ∷ fs) (frames_of arrivals) perm)
          (Numbered-Distinct 0 (map part_of (f ∷ fs)) numbered) in
      let in_order =
        sym same
        ∙ ap (pushes (map part_of (f ∷ fs))) no_parts
        ∙ pushes-in_order (map part_of (f ∷ fs)) numbered in
      let joined = merge-bodies f fs r.merged (sym (ap merge in_order) ∙ r.whole) in
      let out = reassembled-Whole r.merged (
        ap (λ g. g.flags.parted) joined
        ∙ ap (λ g. g.parted) first.flags
        ∙ unfold new_flags in refl) in
      record {
        seq_num = r.seq_num;
        frame = reassembled r.merged;
        after = r.after;
        returns = r.returns;
        delivered = r.delivered;
        cleared = r.cleared;
        parted = out.parted;
        reliability =
            out.reliability
            ∙ ap (λ g. g.flags.reliability) joined
            ∙ ap (λ g. g.reliability) first.flags
            ∙ unfold new_flags in refl;
        reliable_frame_index =
            out.reliable_frame_index
            ∙ ap (λ g. g.reliable_frame_index) joined
            ∙ first.reliable_frame_index;
        seq_frame_index =
            out.seq_frame_index ∙ ap (λ g. g.seq_frame_index) joined ∙ first.seq_frame_index;
        ordered = out.ordered ∙ ap (λ g. g.ordered) joined ∙ first.ordered;
        fragment = out.fragment;
        whole_body = out.body ∙ ap (λ g. g.body) joined;
      }
    where
      no_parts : kept p.parted_size p.parted_id d ≡ []
      no_parts = ap or_empty fresh

      none_kept : length (kept p.parted_size p.parted_id d) ≡ 0
      none_kept = ap length no_parts

      arrived : length arrivals ≡ length (f ∷ fs)
      arrived =
          sym (length-frames_of arrivals) ∙ sym (perm-length (f ∷ fs) (frames_of arrivals) perm)

  -- The parts that the encoder makes of a message, its first reliable index `w`, can come in any order,
  -- each in a frame set of its own or with others: where the decoder's limit allows their number and it
  -- has no other parts with their id, it puts one frame into its buffer, with the message's whole body
  -- and its reliability, ordering and index `w`, no longer marked as parted, and keeps none of the parts.
  pub split_loop-Delivered :
      ⦃b : Buf⦄ (p : Plan) (w : ℕ) (body : List ℕ) (frames : List Frame) (left : List ℕ) (next : ℕ)
      (arrivals : List (ℕ × Frame)) (d : DeFragment)
      → Reliability.is_reliable p.reliability ≡ true
      → 0 < p.per_len
      → p.per_len ≤ p.max_len
      → 0 < p.parted_size
      → w + p.parted_size < 2 ^ 24
      → length body ≤ p.parted_size * p.per_len
      → p.parted_size * p.per_len < length body + p.per_len
      → split_loop p p.parted_size 0 w body ≡ ok (frames, left, next)
      → Allowed p.parted_size p.parted_id d
      → l.peek p.parted_id d.parts ≡ none
      → Permᴰ frames (frames_of arrivals)
      → Delivered p w body d (receive_all arrivals d)
  split_loop-Delivered p w body frames left next arrivals d e per_pos short pos h k m split a fresh
        perm =
      let x : Parts p p.parted_size 0 w body (split_loop p p.parted_size 0 w body) =
        split_loop-Parts p e per_pos short p.parted_size 0 w body h k m in
      rw (sym x.joined) (
        parts-Delivered p w x.frames arrivals d x.numbered x.counted pos a fresh
          (rw (same x.frames (x.returns)) perm))
    where
      same :
          (fs : List Frame)
          → split_loop p p.parted_size 0 w body ≡ ok (fs, [], w + p.parted_size)
          → fs ≡ frames
      same fs r = cc (r, split)

  -- One part of two, received twice, is delivered as a frame whose body is that part's twice.
  pub duplicate_part :
      (first second id i : ℕ) (f : Frame) (d : DeFragment)
      → f.fragment ≡ some (record { parted_size = 2; parted_id = id; parted_index = i })
      → i < 2
      → Allowed 2 id d
      → l.peek id d.parts ≡ none
      → (seq_num : ℕ) × (g : Frame) × (d' : DeFragment) × (receive_all
            ((first, f) ∷ (second, f) ∷ [])
            d
          ≡ ok (none, d'))
        × (d'.buffer ≡ d.buffer ++ (record { seq_num = seq_num; set = reassembled g } ∷ []))
        × (g.body ≡ f.body ++ f.body)
  unfolding merge merge_from
  duplicate_part first second id i f d e h a fresh =
      let arrivals = (first, f) ∷ (second, f) ∷ [] in
      let r =
        receive_all-Reassembled 2 id arrivals d a ((i, e, h), ((i, e, h), tt))
          (omega (arith, none_kept)) (omega arith) in
      (r.seq_num, r.merged, r.after, r.returns, r.delivered, twice r.merged r.whole)
    where
      none_kept : length (kept 2 id d) ≡ 0
      none_kept = ap (λ o. length (or_empty o)) fresh

      queue : pushes (part_of f ∷ part_of f ∷ []) (kept 2 id d) ≡ part_of f ∷ part_of f ∷ []
      queue =
          ap (λ o. pushes (part_of f ∷ part_of f ∷ []) (or_empty o)) fresh
          ∙ unfold push in behind (part_of f) (part_of f) [] (omega arith)

      twice :
          (m : Frame)
          → merge (pushes (part_of f ∷ part_of f ∷ []) (kept 2 id d)) ≡ ok m
          → m.body ≡ f.body ++ f.body
      twice m w = cc (w, ap merge queue)
