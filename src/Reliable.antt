-- ===== src/Reliable.antt =====
-- `SendBuffer` of src/reliable.rs: the frames to send, and the choice of those that go into the next
-- datagram.
pub mod Pop
pub mod Resend
pub mod Layer
use raknet_rs.Prelude.{
  ℕ, zero, suc, ◌+◌, ◌-◌, ◌*◌, ◌/◌, ◌%◌, ◌^◌, Bool, true, false, ◌&&◌, ◌||◌, List, [], ◌∷◌, ◌++◌,
  if◌then◌else◌, Option, none, some, leb, ◌==◌, length, min, max, map, ◌≡◌, ◌≢◌,
}
use raknet_rs.Prelude.Outcome.{Outcome, ok, stuck, ◌>>=◌, ◌>>◌, assert, checked_sub}
use raknet_rs.Packet.Reliability
use raknet_rs.Packet.Frame.{Frame, frame_size, frame_set_header_size, is_nil}
use raknet_rs.Codec.Fragment.{Priority, high, medium, low}

pub record PenaltyFrame : Type 0 where
  pub penalty : ℕ
  pub frame : Frame

-- `std::collections::BinaryHeap<PenaltyFrame>`: a value that is `peek`ed is the one that is popped;
-- `pop` gives the least penalty, and which of several with that is not specified. What is used here is
-- that the elements can be counted, and tested all at once.
pub record Heap (H : Type 0) : Type 0 where
  pub empty : H
  pub push : PenaltyFrame → H → H
  pub pop : H → Option (PenaltyFrame × H)
  pub len : H → ℕ
  pub len-empty : len empty ≡ 0
  pub len-push : (p : PenaltyFrame) (h : H) → len (push p h) ≡ suc (len h)
  pub len-pop : (p : PenaltyFrame) (h h' : H) → pop h ≡ some (p, h') → len h ≡ suc (len h')
  pub pop_none : (h : H) → pop h ≡ none → len h ≡ 0
  pub all : (PenaltyFrame → Bool) → H → Bool
  pub all-empty : (p : PenaltyFrame → Bool) → all p empty ≡ true
  pub all-push :
      (p : PenaltyFrame → Bool) (x : PenaltyFrame) (h : H) → all p (push x h) ≡ (p x && all p h)
  pub all-pop :
      (p : PenaltyFrame → Bool) (x : PenaltyFrame) (h h' : H)
      → pop h ≡ some (x, h')
      → all p h ≡ (p x && all p h')

pub record SendBuffer (H : Type 0) : Type 0 where
  pub send_high : H
  pub send_medium : List Frame
  pub send_low : H
  pub resend : H

-- What the loops of `pop` change: the room that remains, the sum of the penalties, the flag, and the
-- frames that are chosen.
pub record Choice : Type 0 where
  pub remain : ℕ
  pub penalty_sum : ℕ
  pub reliable : Bool
  pub frames : List Frame

-- A frame for which there is room. `inherit` is the new sum of the penalties.
pub choose : Frame → ℕ → Choice → Choice
choose f sum c = record {
  remain = c.remain - frame_size f;
  penalty_sum = sum;
  reliable = Reliability.is_reliable f.flags.reliability || c.reliable;
  frames = c.frames ++ (f ∷ []);
}

-- `self.send_medium.front()` and `pop_front()`
pub pop_medium : List Frame → Choice → Choice × List Frame
unfolding choose
pop_medium [] c = (c, [])
pop_medium (f ∷ fs) c =
    let more = pop_medium fs (choose f 0 c) in
    if leb (frame_size f) c.remain then more else (c, f ∷ fs)

module _ {H : Type 0} (heap : Heap H) where
  abbrev pub new : SendBuffer H
  new = record {
    send_high = heap.empty;
    send_medium = [];
    send_low = heap.empty;
    resend = heap.empty;
  }

  pub send : Priority → Frame → SendBuffer H → SendBuffer H
  send (high penalty) f b = record b {
    send_high = heap.push (record { penalty = penalty; frame = f }) b.send_high;
  }
  send medium f b = record b { send_medium = b.send_medium ++ (f ∷ []) }
  send (low penalty) f b = record b {
    send_low = heap.push (record { penalty = penalty; frame = f }) b.send_low;
  }

  -- `max(penalty, 1).saturating_mul(2)` of a `u8`.
  abbrev pub backoff : PenaltyFrame → PenaltyFrame
  backoff p = record p { penalty = min (max p.penalty 1 * 2) 255 }

  abbrev pub push_all : List PenaltyFrame → H → H
  push_all [] h = h
  push_all (p ∷ ps) h = push_all ps (heap.push (backoff p) h)

  pub resend : List PenaltyFrame → SendBuffer H → SendBuffer H
  resend ps b = record b { resend = push_all ps b.resend }

  -- A loop over a heap. `keeps` is whether the penalties add up (those of frames that are sent again)
  -- or are reset. One round more than there are frames is enough fuel.
  pub pop_heap : ℕ → Bool → H → Choice → Outcome (Choice × H)
  unfolding choose
  pop_heap zero keeps h c = stuck
  pop_heap (suc fuel) keeps h c = elim (heap.pop h) [
    | none ↦ ok (c, h)
    | some (p, h') ↦
        (let more =
            pop_heap fuel keeps h'
              (choose p.frame (if keeps then c.penalty_sum + p.penalty else 0) c) in
          if leb (frame_size p.frame) c.remain then more else ok (c, h))
  ]

  unfoldable pub len : SendBuffer H → ℕ
  len b = heap.len b.send_high + length b.send_medium + heap.len b.send_low + heap.len b.resend

  -- The penalty of the datagram, a `u8`.
  abbrev pub mean : Choice → ℕ
  mean c = if is_nil c.frames then 0 else c.penalty_sum / length c.frames % 2 ^ 8

  -- `pop`, for no frames chosen before.
  pub pop : ℕ → SendBuffer H → Outcome (Choice × SendBuffer H)
  unfolding pop_heap pop_medium len
  pop mtu b = do
    remain ← checked_sub mtu frame_set_header_size
    (c₁, resend') ←
        pop_heap (suc (heap.len b.resend)) true b.resend
          (record { remain = remain; penalty_sum = 0; reliable = false; frames = [] })
    (c₂, high') ← pop_heap (suc (heap.len b.send_high)) false b.send_high c₁
    let (c₃, medium') = pop_medium b.send_medium c₂
    (c₄, low') ← pop_heap (suc (heap.len b.send_low)) false b.send_low c₃
    let b' : SendBuffer H = record {
      send_high = high';
      send_medium = medium';
      send_low = low';
      resend = resend';
    }
    assert ((len b' == 0) || (if is_nil c₄.frames then false else true))
    ok (c₄, b')
