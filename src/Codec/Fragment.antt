-- ===== src/Codec/Fragment.antt =====
-- `Fragment` of src/codec/encoder/fragment.rs: messages become frames, and one that is too long for a
-- datagram becomes several. The sink behind it is not modelled: `buf` is what it has been given.
pub mod Split
pub mod Sent
pub mod Send
pub mod Sequenced
use raknet_rs.Prelude.{
  ℕ, zero, suc, ◌+◌, ◌-◌, ◌/◌, ◌%◌, ◌^◌, Bool, true, false, List, [], ◌∷◌, ◌++◌, Option, none, some,
  map, if◌then◌else◌, ltb, leb, ◌==◌, length, min, set,
}
use raknet_rs.Prelude.Outcome.{Outcome, ok, panic, ◌>>=◌, ◌>>◌, assert, checked_sub, index}
use raknet_rs.Seq
use raknet_rs.Packet.Buf.{Buf}
use raknet_rs.Packet.Reliability
use raknet_rs.Packet.Reliability.{
  Reliability, unreliable, reliable, unreliable_sequenced, reliable_sequenced,
  unreliable_with_ack_receipt, reliable_with_ack_receipt,
}
use raknet_rs.Packet.Frame.{Frame, Ordered, new_flags, fragment_part_size, frame_set_header_size}

-- `Priority` and `Message` of src/lib.rs.
pub data Priority : Type 0 where
  high : ℕ → Priority
  medium : Priority
  low : ℕ → Priority

pub record Message : Type 0 where
  pub reliability : Reliability
  pub order_channel : ℕ
  pub priority : Priority
  pub content : List ℕ

pub record Fragmenter : Type 0 where
  pub mtu : ℕ
  pub reliable_write_index : ℕ
  pub order_write_index : List ℕ
  pub parted_id_write : ℕ
  pub buf : List (Priority × Frame)

-- The reliability of a message that has to be split.
unfoldable pub splittable : Reliability → Reliability
splittable unreliable = reliable
splittable unreliable_sequenced = reliable_sequenced
splittable unreliable_with_ack_receipt = reliable_with_ack_receipt
splittable r = r

-- The longest body of a frame of the reliability, with no fragment part.
unfoldable pub max_body : ℕ → Reliability → Outcome ℕ
unfolding Reliability.size
max_body mtu r = do
  room ← checked_sub mtu frame_set_header_size
  checked_sub room (Reliability.size r)

-- The closure `indices_for_frame`: the index and ordering of a frame, and the next reliable index.
unfoldable pub indices_for_frame : Reliability → ℕ → ℕ → ℕ → Outcome (Option ℕ × Option Ordered × ℕ)
unfolding Reliability.is_reliable Reliability.is_sequenced_or_ordered
indices_for_frame r channel frame_index write_index =
    let ordered =
      if Reliability.is_sequenced_or_ordered r
      then some (record { frame_index = frame_index; channel = channel % 2 ^ 8 })
      else none in
    if Reliability.is_reliable r
    then (do next ← Seq.add write_index 1; ok (some write_index, ordered, next))
    else ok (none, ordered, write_index)

-- `usize::div_ceil`
unfoldable pub div_ceil : ℕ → ℕ → Outcome ℕ
div_ceil a n = do assert (ltb 0 n); ok ((a + (n - 1)) / n)

-- What the splitting of one message holds fixed.
pub record Plan : Type 0 where
  pub reliability : Reliability
  pub channel : ℕ
  pub frame_index : ℕ
  pub max_len : ℕ
  pub per_len : ℕ
  pub parted_size : ℕ
  pub parted_id : ℕ

-- `order_write_index[order_channel] += 1`, for the reliabilities that are ordered.
unfoldable pub step_order : Reliability → ℕ → ℕ → List ℕ → Outcome (List ℕ)
unfolding Reliability.is_sequenced_or_ordered
step_order r channel frame_index indices =
    if Reliability.is_sequenced_or_ordered r
    then (do next ← Seq.add frame_index 1; ok (set indices channel next))
    else ok indices

-- The message as one frame.
unfoldable pub send_whole : Fragmenter → Message → Reliability → ℕ → Outcome Fragmenter
unfolding indices_for_frame step_order new_flags
send_whole s msg r frame_index = do
  (reliable_frame_index, ordered, next) ←
      indices_for_frame r msg.order_channel frame_index s.reliable_write_index
  order ← step_order r msg.order_channel frame_index s.order_write_index
  let frame : Frame = record {
    flags = new_flags r false;
    reliable_frame_index = reliable_frame_index;
    seq_frame_index = none;
    ordered = ordered;
    fragment = none;
    body = msg.content;
  }
  ok (record s {
    reliable_write_index = next;
    order_write_index = order;
    buf = s.buf ++ ((msg.priority, frame) ∷ []);
  })

module _ ⦃b : Buf⦄ where
  -- `for parted_index in 0..parted_size`, with `rounds` of them left: the frames, what is left of the
  -- body, and the next reliable index.
  unfoldable pub split_loop : Plan → ℕ → ℕ → ℕ → List ℕ → Outcome (List Frame × List ℕ × ℕ)
  unfolding indices_for_frame new_flags
  split_loop p zero parted_index write_index body = ok ([], body, write_index)
  split_loop p (suc rounds) parted_index write_index body = do
    (reliable_frame_index, ordered, next) ←
        indices_for_frame p.reliability p.channel p.frame_index write_index
    (part, body') ← b.split_to (min p.per_len (length body)) body
    assert (leb (length part) p.max_len)
    (frames, left, last) ← split_loop p rounds (parted_index + 1) next body'
    ok (
      record {
        flags = new_flags p.reliability true;
        reliable_frame_index = reliable_frame_index;
        seq_frame_index = none;
        ordered = ordered;
        fragment = some (record {
          parted_size = p.parted_size;
          parted_id = p.parted_id;
          parted_index = parted_index;
        });
        body = part;
      }
          ∷ frames,
      left,
      last,
    )

  -- The message in parts.
  unfoldable pub send_parts : Fragmenter → Message → Reliability → ℕ → ℕ → Outcome Fragmenter
  unfolding step_order div_ceil
  send_parts s msg r frame_index max_len = do
    per_len ← checked_sub max_len fragment_part_size
    parts ← div_ceil (length msg.content) per_len
    let plan : Plan = record {
      reliability = r;
      channel = msg.order_channel;
      frame_index = frame_index;
      max_len = max_len;
      per_len = per_len;
      parted_size = parts % 2 ^ 32;
      parted_id = s.parted_id_write;
    }
    (frames, left, next) ← split_loop plan (parts % 2 ^ 32) 0 s.reliable_write_index msg.content
    order ← step_order r msg.order_channel frame_index s.order_write_index
    assert (length left == 0)
    ok (record s {
      reliable_write_index = next;
      order_write_index = order;
      parted_id_write = (s.parted_id_write + 1) % 2 ^ 16;
      buf = s.buf ++ map (λ f. (msg.priority, f)) frames;
    })

  -- `start_send`
  unfoldable pub start_send : Fragmenter → Message → Outcome Fragmenter
  unfolding max_body
  start_send s msg = do
    assert (ltb msg.order_channel (length s.order_write_index))
    frame_index ← index s.order_write_index msg.order_channel
    max_len ← max_body s.mtu msg.reliability
    if ltb max_len (length msg.content)
        then (do
          let r = splittable msg.reliability
          max_len' ← max_body s.mtu r
          if leb (length msg.content) max_len'
              then send_whole s msg r frame_index
              else send_parts s msg r frame_index max_len')
        else send_whole s msg msg.reliability frame_index
