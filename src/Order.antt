-- ===== src/Order.antt =====
-- The layer `Order` of src/codec/decoder/ordered.rs: frames are handed on in the order of their index,
-- channel by channel. The map of a channel is a function from frame indices; what the layer below
-- gives is a list. The vector has `max_channels` entries, so its length stands for that field.
pub mod Emission
use raknet_rs.Prelude.{
  ℕ, zero, suc, ◌+◌, Bool, List, [], ◌∷◌, ◌⊎◌, inl, inr, if◌then◌else◌, Option, none, some, ltb,
  leb, ◌==◌, length, replicate,
}
use raknet_rs.Prelude.Outcome.{CodecError, ordered_frame, Outcome, ok, panic, ◌>>=◌, ◌>>◌, assert}
use raknet_rs.Seq
use raknet_rs.Packet.Frame.{Frame, FrameSet, Ordered}

pub record Ordering : Type 0 where
  pub frames : ℕ → Option (FrameSet Frame)
  pub read : ℕ

-- `ordered(max_channels)`
pub ordered : ℕ → Outcome (List Ordering)
ordered max_channels = do
  assert (ltb max_channels 256)
  assert (ltb 0 max_channels)
  ok (replicate max_channels (record { frames = λ k. none; read = 0 }))

-- `HashMap::insert` and `HashMap::remove`.
abbrev pub insert : ℕ → FrameSet Frame → (ℕ → Option (FrameSet Frame)) → ℕ → Option (FrameSet Frame)
insert k s frames j = if j == k then some s else frames j

abbrev pub without : ℕ → (ℕ → Option (FrameSet Frame)) → ℕ → Option (FrameSet Frame)
without k frames j = if j == k then none else frames j

-- `if let Some(next) = ordering.map.remove(&ordering.read)`, on what the map holds there, before the
-- other channels.
pub take_next :
    Ordering
    → List Ordering
    → Option (FrameSet Frame)
    → Outcome (Option (FrameSet Frame) × List Ordering)
    → Outcome (Option (FrameSet Frame) × List Ordering)
take_next o os (some next) others = do
  read ← Seq.add o.read 1
  ok (some next, record { frames = without o.read o.frames; read = read } ∷ os)
take_next o os none others = do (next, os') ← others; ok (next, o ∷ os')

-- `for channel in 0..max_channels`: the first frame that is next on its channel.
pub take_ready : List Ordering → Outcome (Option (FrameSet Frame) × List Ordering)
unfolding take_next
take_ready [] = ok (none, [])
take_ready (o ∷ os) = let others = take_ready os in take_next o os (o.frames o.read) others

-- What becomes of an index that its channel is to keep.
pub store : Ordering → ℕ → FrameSet Frame → Ordering
store o k s = if ltb k o.read then o else record o { frames = insert k s o.frames }

pub store_at : List Ordering → ℕ → ℕ → FrameSet Frame → List Ordering
unfolding store
store_at [] channel k s = []
store_at (o ∷ os) zero k s = store o k s ∷ os
store_at (o ∷ os) (suc channel) k s = o ∷ store_at os channel k s

pub data Polled : Type 0 where
  item : FrameSet Frame → Polled
  broken : CodecError → Polled
  exhausted : Polled

abbrev pub Input : Type 0
Input = List (FrameSet Frame ⊎ CodecError)

abbrev pub Answer : Type 0
Answer = Outcome (Polled × List Ordering × Input)

-- A frame that the layer below has given: an unordered one is handed on, one on a channel that does
-- not exist is an error, and any other is kept or, if it is old, dropped, before the next round.
pub receive :
    FrameSet Frame → Option Ordered → List Ordering → Input → (List Ordering → Answer) → Answer
unfolding store_at
receive s none os rest more = ok (item s, os, rest)
receive s (some o) os rest more =
    if leb (length os) o.channel
    then ok (broken ordered_frame, os, rest)
    else more (store_at os o.channel o.frame_index s)

-- `return Poll::Ready(Some(Ok(next)))` if a channel had one.
pub hand_on : Option (FrameSet Frame) → List Ordering → Input → Answer → Answer
hand_on (some next) os input otherwise = ok (item next, os, input)
hand_on none os input otherwise = otherwise

-- `poll_next`
pub poll_next : List Ordering → Input → Answer
unfolding take_ready receive hand_on
poll_next os [] = do (next, os') ← take_ready os; hand_on next os' [] (ok (exhausted, os', []))
poll_next os (inr e ∷ rest) = do
  (next, os') ← take_ready os
  hand_on next os' (inr e ∷ rest) (ok (broken e, os', rest))
poll_next os (inl s ∷ rest) =
    let more = λ (x : List Ordering). poll_next x rest in
    take_ready os >>= λ p. hand_on p.0 p.1 (inl s ∷ rest) (receive s s.set.ordered p.1 rest more)
