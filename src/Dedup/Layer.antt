-- ===== src/Dedup/Layer.antt =====
-- The layer `Dedup` of src/codec/decoder/dedup.rs: frames that were received before are taken out.
use raknet_rs.Prelude.{
  ℕ, ◌≡◌, refl, Bool, true, not, List, [], ◌∷◌, if◌then◌else◌, Option, none, some, ◌⊎◌, inl, inr,
  All,
}
use raknet_rs.Prelude.Outcome.{CodecError, Outcome, ok, ◌>>=◌}
use raknet_rs.Packet.Frame.{Frame, FrameSet, is_nil}
use raknet_rs.Packet.Buf.{Holds}
use raknet_rs.Dedup.{DuplicateWindow, duplicate}
use raknet_rs.Dedup.Window.{Tracks}
use raknet_rs.Dedup.Correct.{duplicate-Answered, contains, InReach}

-- The closure of `retain`: whether the frame is kept, with the window behind it.
pub keeps : DuplicateWindow → Option ℕ → Outcome (DuplicateWindow × Bool)
keeps w none = ok (w, true)
keeps w (some i) = do (w', answer) ← duplicate w i; ok (w', not answer)

-- `frame_set.set.retain(..)`
pub retain : DuplicateWindow → List Frame → Outcome (DuplicateWindow × List Frame)
retain w [] = ok (w, [])
retain w (f ∷ fs) = do
  (w', keep) ← keeps w f.reliable_frame_index
  (w'', kept) ← retain w' fs
  ok (w'', if keep then f ∷ kept else kept)

-- What a poll comes to: an item, an error of the layer below, or the end of what that layer has
-- given.
pub data Polled : Type 0 where
  item : FrameSet (List Frame) → Polled
  broken : CodecError → Polled
  exhausted : Polled

-- `poll_next` on what the layer below gives from here on, with what it leaves of that.
pub poll_next :
    DuplicateWindow
    → List (FrameSet (List Frame) ⊎ CodecError)
    → Outcome (Polled × DuplicateWindow × List (FrameSet (List Frame) ⊎ CodecError))
poll_next w [] = ok (exhausted, w, [])
poll_next w (inr e ∷ rest) = ok (broken e, w, rest)
poll_next w (inl s ∷ rest) = do
  (w', kept) ← retain w s.set
  let more = poll_next w' rest
  if is_nil kept then more else ok (item (record { seq_num = s.seq_num; set = kept }), w', rest)

-- The history of reliable indices behind a frame.
abbrev pub noted : List ℕ → Option ℕ → List ℕ
noted past none = past
noted past (some i) = i ∷ past

-- Whether an index is new, a missing one always.
abbrev pub is_new : List ℕ → Option ℕ → Bool
is_new past none = true
is_new past (some i) = not (contains past i)

-- The frames whose reliable index occurs neither in the history nor on an earlier frame.
abbrev pub fresh : List ℕ → List Frame → List Frame
fresh past [] = []
fresh past (f ∷ fs) =
    let rest = fresh (noted past f.reliable_frame_index) fs in
    if is_new past f.reliable_frame_index then f ∷ rest else rest

abbrev pub history : List ℕ → List Frame → List ℕ
history past [] = past
history past (f ∷ fs) = history (noted past f.reliable_frame_index) fs

keeps-is_new :
    (w : DuplicateWindow) (past : List ℕ) (o : Option ℕ)
    → Tracks w (contains past)
    → Holds InReach o
    → (w' : DuplicateWindow) × (keeps w o ≡ ok (w', is_new past o))
      × Tracks w' (contains (noted past o))
unfolding keeps
keeps-is_new w past none t h = (w, refl, t)
keeps-is_new w past (some i) t h =
    let (w', e, t') = duplicate-Answered w (contains past) i t h in (w', rw e, t')

-- A window that tracks a history lets through, without a panic, exactly the frames with no reliable
-- index or one that is new, by the history and the frames before it, and then tracks the longer
-- history; every index is below 2 ^ 24 - 1.
pub retain-fresh :
    (w : DuplicateWindow) (past : List ℕ) (fs : List Frame)
    → Tracks w (contains past)
    → All (λ f. Holds InReach f.reliable_frame_index) fs
    → (w' : DuplicateWindow) × (retain w fs ≡ ok (w', fresh past fs))
      × Tracks w' (contains (history past fs))
unfolding retain
retain-fresh w past [] t h = (w, refl, t)
retain-fresh w past (f ∷ fs) t (h, hs) =
    let (w', e, t') = keeps-is_new w past f.reliable_frame_index t h in
    let (w'', e', t'') = retain-fresh w' (noted past f.reliable_frame_index) fs t' hs in
    (w'', rw (e, e'), t'')
