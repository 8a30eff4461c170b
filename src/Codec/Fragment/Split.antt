-- ===== src/Codec/Fragment/Split.antt =====
-- The parts of a message that is split: their bodies make up the message, and they are numbered.
use native.Mathlib.Nat.{suc-mul, zero-mul}
use raknet_rs.Prelude.{
  ℕ, zero, suc, ◌+◌, ◌*◌, ◌%◌, ◌^◌, ◌≤◌, ◌<◌, ◌≡◌, refl, sym, ap, ◌∙◌, true, List, [], ◌∷◌, ◌++◌,
  Option, none, some, if◌then◌else◌, length, min, take, drop, take-append-drop, length-take,
  length-drop, le→leb, arith,
}
use raknet_rs.Prelude.Outcome.{Outcome, ok}
use raknet_rs.Seq
use raknet_rs.Packet.Buf.{Buf}
use raknet_rs.Packet.Reliability
use raknet_rs.Packet.Reliability.{Reliability}
use raknet_rs.Packet.Frame.{Frame, Ordered, new_flags}
use raknet_rs.Codec.Fragment.{Plan, indices_for_frame, split_loop}

-- The bodies of frames, joined.
abbrev pub bodies : List Frame → List ℕ
bodies [] = []
bodies (f ∷ fs) = f.body ++ bodies fs

-- The ordering that all frames of a message carry.
abbrev pub ordering : Reliability → ℕ → ℕ → Option Ordered
ordering r channel frame_index =
    if Reliability.is_sequenced_or_ordered r
    then some (record { frame_index = frame_index; channel = channel % 2 ^ 8 })
    else none

-- A part of a message: number `i` of its parts, with reliable index `w`.
pub record IsPart (p : Plan) (i w : ℕ) (f : Frame) : Type 0 where
  pub flags : f.flags ≡ new_flags p.reliability true
  pub reliable_frame_index : f.reliable_frame_index ≡ some w
  pub seq_frame_index : f.seq_frame_index ≡ none
  pub ordered : f.ordered ≡ ordering p.reliability p.channel p.frame_index
  pub fragment :
      f.fragment
      ≡ some (record { parted_size = p.parted_size; parted_id = p.parted_id; parted_index = i })
  pub some_body : 0 < length f.body
  pub short_body : length f.body ≤ p.per_len

-- The frames are parts, numbered from `i` and with reliable indices from `w` on.
abbrev pub AreParts : Plan → ℕ → ℕ → List Frame → Type 0
AreParts p i w [] = Unit
AreParts p i w (f ∷ fs) = IsPart p i w f × AreParts p (i + 1) (w + 1) fs

-- What the loop comes to in `n` rounds over a body: no panic, and nothing of the body left.
pub record Parts (p : Plan) (n i w : ℕ) (body : List ℕ) (r : Outcome (List Frame × List ℕ × ℕ))
    : Type 0 where
  pub frames : List Frame
  pub returns : r ≡ ok (frames, [], w + n)
  pub joined : bodies frames ≡ body
  pub numbered : AreParts p i w frames
  pub counted : length frames ≡ n

nil_of_length : (xs : List ℕ) → length xs ≡ 0 → xs ≡ []
nil_of_length [] e = refl
nil_of_length (x ∷ xs) e = absurd (omega arith)

indices-reliable :
    (r : Reliability) (channel frame_index w : ℕ)
    → Reliability.is_reliable r ≡ true
    → w + 1 < 2 ^ 24
    → indices_for_frame r channel frame_index w ≡ ok (some w, ordering r channel frame_index, w + 1)
unfolding indices_for_frame
indices-reliable r channel frame_index w e h = rw (e, Seq.add-ok w 1 h)

module _ ⦃b : Buf⦄ (p : Plan) (reliable : Reliability.is_reliable p.reliability ≡ true)
    (some_len : 0 < p.per_len) (fitting : p.per_len ≤ p.max_len) where
  -- The part that one round cuts off.
  abbrev cut : ℕ → ℕ → List ℕ → Frame
  cut i w body = record {
    flags = new_flags p.reliability true;
    reliable_frame_index = some w;
    seq_frame_index = none;
    ordered = ordering p.reliability p.channel p.frame_index;
    fragment =
        some (record { parted_size = p.parted_size; parted_id = p.parted_id; parted_index = i });
    body = take (min p.per_len (length body)) body;
  }

  cut-IsPart : (i w : ℕ) (body : List ℕ) → 0 < length body → IsPart p i w (cut i w body)
  cut-IsPart i w body h = record {
    flags = refl;
    reliable_frame_index = refl;
    seq_frame_index = refl;
    ordered = refl;
    fragment = refl;
    some_body = omega (arith, length-take (min p.per_len (length body)) body);
    short_body = omega (arith, length-take (min p.per_len (length body)) body);
  }

  next : (w n : ℕ) → w + 1 + n ≡ w + suc n
  next w n = omega arith

  -- One round, and the rest of the loop.
  split_step :
      (n i w : ℕ) (body : List ℕ)
      → w + 1 < 2 ^ 24
      → 0 < length body
      → Parts p n
          (i + 1)
          (w + 1)
          (drop (min p.per_len (length body)) body)
          (split_loop p n (i + 1) (w + 1) (drop (min p.per_len (length body)) body))
      → Parts p (suc n) i w body (split_loop p (suc n) i w body)
  unfolding split_loop
  split_step n i w body h k x =
      let m = min p.per_len (length body) in
      record {
        frames = cut i w body ∷ x.frames;
        returns =
            rw
              (
                indices-reliable p.reliability p.channel p.frame_index w reliable h,
                b.split_to_enough m body (omega arith),
                le→leb (length (take m body)) p.max_len (omega (arith, length-take m body)),
                x.returns,
              )
              (λ j. ok (cut i w body ∷ x.frames, [], (next w n) j));
        joined = ap (λ t. take m body ++ t) x.joined ∙ take-append-drop m body;
        numbered = (cut-IsPart i w body k, x.numbered);
        counted = omega (arith, x.counted);
      }

  -- With as many rounds as the body takes, the loop does not panic, and cuts the body into parts.
  pub split_loop-Parts :
      (n i w : ℕ) (body : List ℕ)
      → w + n < 2 ^ 24
      → length body ≤ n * p.per_len
      → n * p.per_len < length body + p.per_len
      → Parts p n i w body (split_loop p n i w body)
  split_loop-Parts zero i w body h k l = record {
    frames = [];
    returns = unfold split_loop in (λ j. ok ([], none_left j, no_step j));
    joined = sym none_left;
    numbered = tt;
    counted = refl;
  }
    where
      none_left : body ≡ []
      none_left = nil_of_length body (omega (arith, zero-mul p.per_len))

      no_step : w ≡ w + zero
      no_step = omega arith
  split_loop-Parts (suc n) i w body h k l =
      split_step n i w body (omega arith) (omega (arith, suc-mul n p.per_len)) (
        split_loop-Parts n (i + 1) (w + 1) (drop (min p.per_len (length body)) body) (omega arith)
          (omega (arith, suc-mul n p.per_len, length-drop (min p.per_len (length body)) body))
          (omega (arith, suc-mul n p.per_len, length-drop (min p.per_len (length body)) body)))
