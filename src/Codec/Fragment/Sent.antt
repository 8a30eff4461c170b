-- ===== src/Codec/Fragment/Sent.antt =====
-- What becomes of a message in `start_send`, and the laws of the helpers of it.
use native.Mathlib.Nat.{div-mul-le_self, lt-div-mul-add, div-le_of_le-mul, zero-mul}
use raknet_rs.Prelude.{
  ℕ, zero, suc, ◌+◌, ◌-◌, ◌*◌, ◌/◌, ◌^◌, ◌≤◌, ◌<◌, ◌≡◌, refl, ap, true, List, [], ◌∷◌, ◌++◌, Option,
  none, some, map, if◌then◌else◌, length, get_or, set, arith, Bool-cases, ◌⊎◌, inl, inr,
}
use raknet_rs.Prelude.Outcome.{Outcome, ok, checked_sub-ok}
use raknet_rs.Seq
use raknet_rs.Packet.Reliability
use raknet_rs.Packet.Reliability.{
  Reliability, unreliable, unreliable_sequenced, reliable, reliable_ordered, reliable_sequenced,
  unreliable_with_ack_receipt, reliable_with_ack_receipt, reliable_ordered_with_ack_receipt,
}
use raknet_rs.Packet.Frame.{Frame, Ordered, frame_size}
use raknet_rs.Codec.Fragment.{
  Message, Fragmenter, splittable, max_body, indices_for_frame, step_order,
}
use raknet_rs.Codec.Fragment.Split.{bodies, ordering}

-- What is asked of the state and the message: the assertion on the channel, room for the longest
-- header and a byte, and indices that do not reach the end of the 24 bits.
pub record Ready (s : Fragmenter) (msg : Message) : Type 0 where
  pub channel : msg.order_channel < length s.order_write_index
  pub room : 28 ≤ s.mtu
  pub reliable_room : s.reliable_write_index + length msg.content + 1 < 2 ^ 24
  pub order_room : get_or s.order_write_index msg.order_channel 0 + 1 < 2 ^ 24

-- The reliable index of a frame: present exactly for the reliable.
abbrev pub indexed : Reliability → ℕ → Option ℕ
indexed r w = if Reliability.is_reliable r then some w else none

-- Frames of one message under the reliability `r`: reliable indices from `w` on, one ordering, and
-- none longer than a datagram holds.
abbrev pub AreFrames : ℕ → Reliability → Option Ordered → ℕ → List Frame → Type 0
AreFrames mtu r o w [] = Unit
AreFrames mtu r o w (f ∷ fs) =
    (f.flags.reliability ≡ r)
    × (f.reliable_frame_index ≡ indexed r w)
    × (f.seq_frame_index ≡ none)
    × (f.ordered ≡ o)
    × (4 + frame_size f ≤ mtu)
    × AreFrames mtu r o (w + 1) fs

pub record Sent (s : Fragmenter) (msg : Message) (r : Outcome Fragmenter) : Type 0 where
  pub after : Fragmenter
  pub frames : List Frame
  pub used : Reliability
  pub used_for : (used ≡ msg.reliability) ⊎ (used ≡ splittable msg.reliability)
  pub some_frame : 0 < length frames
  pub returns : r ≡ ok after
  pub queued : after.buf ≡ s.buf ++ map (λ f. (msg.priority, f)) frames
  pub joined : bodies frames ≡ msg.content
  pub framed :
      AreFrames s.mtu used
        (ordering used msg.order_channel (get_or s.order_write_index msg.order_channel 0))
        s.reliable_write_index
        frames
  pub stepped :
      after.reliable_write_index
      ≡ s.reliable_write_index + (if Reliability.is_reliable used then length frames else 0)
  pub order_stepped : after.order_write_index ≡ (
      if Reliability.is_sequenced_or_ordered used
      then set s.order_write_index msg.order_channel
          (get_or s.order_write_index msg.order_channel 0 + 1)
      else s.order_write_index)

pub size-le : (r : Reliability) → Reliability.size r ≤ 13
unfolding Reliability.size
size-le unreliable = omega arith
size-le _ = omega arith

pub splittable-reliable : (r : Reliability) → Reliability.is_reliable (splittable r) ≡ true
unfolding splittable Reliability.is_reliable
splittable-reliable unreliable = refl
splittable-reliable unreliable_sequenced = refl
splittable-reliable reliable = refl
splittable-reliable reliable_ordered = refl
splittable-reliable reliable_sequenced = refl
splittable-reliable unreliable_with_ack_receipt = refl
splittable-reliable reliable_with_ack_receipt = refl
splittable-reliable reliable_ordered_with_ack_receipt = refl

pub max_body-ok :
    (mtu : ℕ) (r : Reliability) → 28 ≤ mtu → max_body mtu r ≡ ok (mtu - 4 - Reliability.size r)
unfolding max_body
max_body-ok mtu r h =
    rw
      (
        checked_sub-ok mtu 4 (omega arith),
        checked_sub-ok (mtu - 4) (Reliability.size r) (omega (arith, size-le r)),
      )
      refl

pub step_order-ok :
    (r : Reliability) (channel frame_index : ℕ) (indices : List ℕ)
    → frame_index + 1 < 2 ^ 24
    → step_order r channel frame_index indices
      ≡ ok (
          if Reliability.is_sequenced_or_ordered r
          then set indices channel (frame_index + 1)
          else indices)
unfolding step_order
step_order-ok r channel frame_index indices h =
    elim (Bool-cases (Reliability.is_sequenced_or_ordered r)) [
      | inl e ↦ rw (e, Seq.add-ok frame_index 1 h)
      | inr e ↦ rw e
    ]

-- The rounds of the loop: enough for the body, none of them idle.
pub ceil_rounds :
    (len per : ℕ)
    → 0 < len
    → 0 < per
    → let n = (len + (per - 1)) / per in (len ≤ n * per) × (n * per < len + per) × (n ≤ len)
ceil_rounds len per h k = (
  omega (arith, lt-div-mul-add {a = len + (per - 1)} k),
  omega (arith, div-mul-le_self (len + (per - 1)) per),
  div-le_of_le-mul per (grind arith),
)

pub some_parts : (n per len : ℕ) → 0 < len → len ≤ n * per → 0 < n
some_parts zero per len h k = omega (arith, zero-mul per)
some_parts (suc n) per len h k = omega arith

pub indices-ok :
    (r : Reliability) (channel frame_index w : ℕ)
    → w + 1 < 2 ^ 24
    → indices_for_frame r channel frame_index w
      ≡ ok (
        indexed r w,
        ordering r channel frame_index,
        w + (if Reliability.is_reliable r then 1 else 0),
      )
unfolding indices_for_frame
indices-ok r channel frame_index w h = elim (Bool-cases (Reliability.is_reliable r)) [
  | inl e ↦ rw (e, Seq.add-ok w 1 h)
  | inr e ↦ rw e (ap (λ (n : ℕ). ok (none, ordering r channel frame_index, n)) (omega arith))
]
