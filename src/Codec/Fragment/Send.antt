-- ===== src/Codec/Fragment/Send.antt =====
-- `start_send`: what becomes of a message, whole or in parts.
use native.Mathlib.Nat.{mod-eq_of_lt}
use mathlib.Core.List.{append-nil}
use raknet_rs.Prelude.{
  ℕ, ◌+◌, ◌-◌, ◌/◌, ◌^◌, ◌≤◌, ◌<◌, ◌≡◌, refl, ap, ◌∙◌, true, false, List, [], ◌∷◌, none,
  if◌then◌else◌, length, ltb, leb, get_or, lt→ltb, leb→le, ltb_false→le, leb_false→lt, arith,
  Bool-cases, ◌⊎◌, inl, inr,
}
use raknet_rs.Prelude.Outcome.{checked_sub-ok, index-ok}
use raknet_rs.Packet.Buf.{Buf, is_some}
use raknet_rs.Packet.Reliability
use raknet_rs.Packet.Reliability.{
  Reliability, unreliable, unreliable_sequenced, reliable, reliable_ordered, reliable_sequenced,
  unreliable_with_ack_receipt, reliable_with_ack_receipt, reliable_ordered_with_ack_receipt,
}
use raknet_rs.Packet.Frame.{Frame, new_flags, frame_size}
use raknet_rs.Codec.Fragment.{
  Message, Fragmenter, Plan, splittable, div_ceil, split_loop, send_whole, send_parts, start_send,
}
use raknet_rs.Codec.Fragment.Split.{ordering, IsPart, AreParts, Parts, split_loop-Parts}
use raknet_rs.Codec.Fragment.Sent.{
  Ready, Sent, AreFrames, indexed, size-le, splittable-reliable, max_body-ok, step_order-ok,
  ceil_rounds, some_parts, indices-ok,
}

module _ (s : Fragmenter) (msg : Message) (ready : Ready s msg) where
  open ready use {channel, room, reliable_room, order_room}

  abbrev frame_index : ℕ
  frame_index = get_or s.order_write_index msg.order_channel 0

  -- The message in one frame.
  send_whole-Sent :
      (r : Reliability)
      → (r ≡ msg.reliability) ⊎ (r ≡ splittable msg.reliability)
      → length msg.content ≤ s.mtu - 4 - Reliability.size r
      → Sent s msg (send_whole s msg r frame_index)
  unfolding send_whole new_flags frame_size
  send_whole-Sent r k h =
      rw
        (
          indices-ok r msg.order_channel frame_index s.reliable_write_index
              (omega (arith, reliable_room)),
          step_order-ok r msg.order_channel frame_index s.order_write_index order_room,
        )
        (record {
          after = _;
          frames = whole ∷ [];
          used = r;
          used_for = k;
          some_frame = omega arith;
          returns = refl;
          queued = refl;
          joined = append-nil msg.content;
          framed = (refl, refl, refl, refl, omega (arith, h, size-le r, room), tt);
          stepped = refl;
          order_stepped = refl;
        })
    where
      whole : Frame
      whole = record {
        flags = new_flags r false;
        reliable_frame_index = indexed r s.reliable_write_index;
        seq_frame_index = none;
        ordered = ordering r msg.order_channel frame_index;
        fragment = none;
        body = msg.content;
      }

  -- Parts of at most `per_len` bytes are frames that a datagram holds.
  part_size :
      (p : Plan) (i w : ℕ) (f : Frame)
      → IsPart p i w f
      → frame_size f ≡ Reliability.size p.reliability + 10 + length f.body
  unfolding frame_size new_flags
  part_size p i w f a = λ j.
      Reliability.size ((a.flags j).reliability)
      + (if is_some (a.fragment j) then 10 else 0)
      + length f.body

  parts-AreFrames :
      (p : Plan) (i w : ℕ) (fs : List Frame)
      → Reliability.is_reliable p.reliability ≡ true
      → 4 + (Reliability.size p.reliability + 10 + p.per_len) ≤ s.mtu
      → AreParts p i w fs
      → AreFrames s.mtu p.reliability (ordering p.reliability p.channel p.frame_index) w fs
  parts-AreFrames p i w [] e h a = tt
  parts-AreFrames p i w (f ∷ fs) e h (a, rest) = (
    ap (λ g. g.reliability) a.flags ∙ unfold new_flags in refl,
    a.reliable_frame_index ∙ rw e,
    a.seq_frame_index,
    a.ordered,
    omega (arith, part_size p i w f a, a.short_body, h),
    parts-AreFrames p (i + 1) (w + 1) fs e h rest,
  )

  -- The message in parts.
  send_parts-Sent :
      ⦃b : Buf⦄ (r : Reliability)
      → (r ≡ msg.reliability) ⊎ (r ≡ splittable msg.reliability)
      → Reliability.is_reliable r ≡ true
      → 0 < length msg.content
      → Sent s msg (send_parts s msg r frame_index (s.mtu - 4 - Reliability.size r))
  unfolding send_parts div_ceil
  send_parts-Sent r k e some_content =
      let per = s.mtu - 4 - Reliability.size r - 10 in
      let parts = (length msg.content + (per - 1)) / per in
      let per_pos : 0 < per = omega (arith, size-le r, room) in
      let (enough, busy, few) = ceil_rounds (length msg.content) per some_content per_pos in
      let plan : Plan = record {
        reliability = r;
        channel = msg.order_channel;
        frame_index = frame_index;
        max_len = s.mtu - 4 - Reliability.size r;
        per_len = per;
        parted_size = parts;
        parted_id = s.parted_id_write;
      } in
      let x : Parts plan parts 0 s.reliable_write_index msg.content
          (split_loop plan parts 0 s.reliable_write_index msg.content) =
        split_loop-Parts plan e per_pos (omega arith) parts 0 s.reliable_write_index msg.content
          (omega (arith, few, reliable_room)) enough busy in
      rw
        (
          checked_sub-ok (s.mtu - 4 - Reliability.size r) 10 (omega (arith, size-le r, room)),
          lt→ltb 0 per per_pos,
          mod-eq_of_lt {n = parts} {m = 2 ^ 32} (omega (arith, few, reliable_room)),
          x.returns,
          step_order-ok r msg.order_channel frame_index s.order_write_index order_room,
        )
        (record {
          after = _;
          frames = x.frames;
          used = r;
          used_for = k;
          some_frame =
              omega
                (arith, some_parts parts per (length msg.content) some_content enough, x.counted);
          returns = refl;
          queued = refl;
          joined = x.joined;
          framed =
              parts-AreFrames plan 0 s.reliable_write_index x.frames e
                (omega (arith, size-le r, room)) x.numbered;
          stepped = rw (e, x.counted);
          order_stepped = refl;
        })

  -- Every message that the state is ready for is sent without a panic. The bodies of its frames make up
  -- its content in order, each frame with its header fits the `mtu`, all carry one ordering index, the
  -- reliable ones consecutive indices, and both counters are stepped past those used.
  pub start_send-Sent : ⦃b : Buf⦄ → Sent s msg (start_send s msg)
  unfolding start_send
  start_send-Sent =
      rw
        (
          lt→ltb msg.order_channel (length s.order_write_index) channel,
          index-ok s.order_write_index msg.order_channel 0 channel,
          max_body-ok s.mtu msg.reliability room,
        )
        (elim (Bool-cases
          (ltb (s.mtu - 4 - Reliability.size msg.reliability) (length msg.content))) [
            | inr e ↦ rw e (send_whole-Sent msg.reliability (inl refl) (ltb_false→le _ _ e))
            | inl e ↦
                rw (e, max_body-ok s.mtu (splittable msg.reliability) room)
                  (elim (Bool-cases (
                    leb (length msg.content)
                      (s.mtu - 4 - Reliability.size (splittable msg.reliability)))) [
                        | inl k ↦
                            rw k (
                              send_whole-Sent (splittable msg.reliability) (inr refl)
                                (leb→le _ _ k))
                        | inr k ↦ rw k (
                            send_parts-Sent (splittable msg.reliability) (inr refl)
                              (splittable-reliable msg.reliability)
                              (omega (arith, leb_false→lt _ _ k)))
                      ])
          ])
