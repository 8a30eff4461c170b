-- ===== src/Codec/Defragment.antt =====
-- `DeFragment` of src/codec/decoder/fragment.rs: the parts of a frame become one frame again. The heap
-- of the parts of one id is an ascending list of their indices, with equal ones in the order of arrival;
-- a reference to it is written back by `put`, which like `get_or_insert_mut` makes it the most recent.
pub mod Heap
pub mod Reassembly
pub mod Message
use raknet_rs.Prelude.{
  ℕ, zero, suc, Bool, true, false, not, ◌&&◌, List, [], ◌∷◌, ◌++◌, map, if◌then◌else◌, Option, none,
  some, ltb, leb, ◌==◌, length, ◌⊎◌, inl, inr,
}
use raknet_rs.Prelude.Outcome.{CodecError, parted_frame, Outcome, ok, panic, ◌>>=◌, ◌>>◌, assert}
use raknet_rs.Prelude.Lru.{Lru}
use raknet_rs.Packet.Frame.{Frame, FrameSet, Fragment, reassembled}

pub record FramePart : Type 0 where
  pub parted_index : ℕ
  pub frame : Frame

-- `BinaryHeap::push`, by the reversed order of the indices.
unfoldable pub push : FramePart → List FramePart → List FramePart
push x [] = x ∷ []
push x (y ∷ ys) = if ltb x.parted_index y.parted_index then x ∷ y ∷ ys else y ∷ push x ys

-- `reduce`, behind the first part: the bodies are put one behind the other.
unfoldable pub merge_from : Frame → List FramePart → Frame
merge_from acc [] = acc
merge_from acc (next ∷ rest) = merge_from (record acc { body = acc.body ++ next.frame.body }) rest

unfoldable pub merge : List FramePart → Outcome Frame
merge [] = panic
merge (first ∷ rest) = ok (merge_from first.frame rest)

-- What the layer below has given: frame sets and errors.
abbrev pub Input : Type 0
Input = List (FrameSet (List Frame) ⊎ CodecError)

pub data Polled : Type 0 where
  item : FrameSet Frame → Polled
  broken : CodecError → Polled
  exhausted : Polled

-- `expect`
abbrev pub expect {ℓ} : {A : Type ℓ} → Option A → Outcome A
expect none = panic
expect (some x) = ok x

abbrev pub or_empty : Option (List FramePart) → List FramePart
or_empty none = []
or_empty (some queue) = queue

module _ ⦃l : Lru ℕ (List FramePart)⦄ where
  pub record DeFragment : Type 0 where
    pub limit_size : ℕ
    pub parts : l.Cache
    pub buffer : List (FrameSet Frame)

  -- `defragmented`
  unfoldable pub defragmented : ℕ → ℕ → Outcome DeFragment
  defragmented limit_size limit_parted = do
    assert (ltb 0 limit_parted)
    ok (record { limit_size = limit_size; parts = l.new limit_parted; buffer = [] })

  abbrev pub push_back : ℕ → Frame → DeFragment → DeFragment
  push_back seq_num frame d = record d {
    buffer = d.buffer ++ (record { seq_num = seq_num; set = frame } ∷ []);
  }

  -- A part that has passed the tests: kept, or merged with the others when it makes them complete.
  unfoldable pub keep_part :
      ℕ → Frame → Fragment → DeFragment → Outcome (Option CodecError × DeFragment)
  keep_part seq_num frame part d =
      let queue =
        push (record { parted_index = part.parted_index; frame = frame })
          (or_empty (l.peek part.parted_id d.parts)) in
      let parts = (l.put part.parted_id queue d.parts).1 in
      if ltb (length queue) part.parted_size then ok (none, record d { parts = parts }) else (do
        popped ← expect (l.pop part.parted_id parts).0
        merged ← merge popped
        ok (
          none,
          push_back seq_num (reassembled merged)
              (record d { parts = (l.pop part.parted_id parts).1 }),
        ))

  -- One round of `for frame in frame_set.set`: an error ends `poll_next`.
  unfoldable pub receive :
      ℕ → Frame → Option Fragment → DeFragment → Outcome (Option CodecError × DeFragment)
  receive seq_num frame none d = ok (none, push_back seq_num frame d)
  receive seq_num frame (some part) d =
      if leb part.parted_size part.parted_index
      then ok (some parted_frame, d)
      else (if not (d.limit_size == 0) && ltb d.limit_size part.parted_size
          then ok (some parted_frame, d)
          else keep_part seq_num frame part d)

  abbrev pub unless_failed :
      Option CodecError × DeFragment
      → (DeFragment → Outcome (Option CodecError × DeFragment))
      → Outcome (Option CodecError × DeFragment)
  unless_failed (none, d) more = more d
  unless_failed (some e, d) more = ok (some e, d)

  -- Frames that come in one after the other, each with the number of its frame set.
  unfoldable pub receive_all :
      List (ℕ × Frame) → DeFragment → Outcome (Option CodecError × DeFragment)
  receive_all [] d = ok (none, d)
  receive_all ((seq_num, frame) ∷ rest) d = do
    r ← receive seq_num frame frame.fragment d
    unless_failed r (receive_all rest)

  -- The loop over a frame set.
  abbrev pub receive_set :
      FrameSet (List Frame) → DeFragment → Outcome (Option CodecError × DeFragment)
  receive_set s d = receive_all (map (λ f. (s.seq_num, f)) s.set) d

  abbrev pub Answer : Type 0
  Answer = Outcome (Polled × DeFragment × Input)

  -- `if let Some(frame_set) = this.buffer.pop_front()`
  abbrev pub pop_front : List (FrameSet Frame) → DeFragment → Input → Answer → Answer
  pop_front [] d input otherwise = otherwise
  pop_front (s ∷ buffer) d input otherwise = ok (item s, record d { buffer = buffer }, input)

  abbrev pub looped : Option CodecError × DeFragment → Input → (DeFragment → Answer) → Answer
  looped (none, d) rest more = more d
  looped (some e, d) rest more = ok (broken e, d, rest)

  -- `poll_next`
  unfoldable pub poll_next : DeFragment → Input → Answer
  poll_next d [] = pop_front d.buffer d [] (ok (exhausted, d, []))
  poll_next d (inr e ∷ rest) = pop_front d.buffer d (inr e ∷ rest) (ok (broken e, d, rest))
  poll_next d (inl s ∷ rest) =
      let more = λ (x : DeFragment). poll_next x rest in
      pop_front d.buffer d (inl s ∷ rest) (do r ← receive_set s d; looped r rest more)
