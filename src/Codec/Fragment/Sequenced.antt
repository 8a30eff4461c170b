-- ===== src/Codec/Fragment/Sequenced.antt =====
-- A message sent with a sequenced reliability: its frames have no sequence index, which a reader takes
-- for granted.
use mathlib.Core.Logic.{◌≢◌}
use raknet_rs.Prelude.{
  ℕ, ◌+◌, ◌≡◌, refl, ap, ◌∙◌, true, List, [], ◌∷◌, Option, none, ◌⊎◌, inl, inr, All,
}
use raknet_rs.Prelude.Outcome.{ok}
use raknet_rs.Packet.Buf.{Buf, is_some}
use raknet_rs.Packet.Reliability
use raknet_rs.Packet.Reliability.{
  Reliability, unreliable, unreliable_sequenced, reliable, reliable_ordered, reliable_sequenced,
  unreliable_with_ack_receipt, reliable_with_ack_receipt, reliable_ordered_with_ack_receipt,
}
use raknet_rs.Packet.Frame.{Frame, Ordered, read_frame}
use raknet_rs.Packet.Frame.Announced.{Announced, read_frame-Announced}
use raknet_rs.Codec.Fragment.{Message, Fragmenter, splittable, start_send}
use raknet_rs.Codec.Fragment.Sent.{Ready, Sent, AreFrames}
use raknet_rs.Codec.Fragment.Send.{start_send-Sent}

splittable-sequenced :
    (r : Reliability) → Reliability.is_sequenced (splittable r) ≡ Reliability.is_sequenced r
unfolding splittable Reliability.is_sequenced
splittable-sequenced unreliable = refl
splittable-sequenced _ = refl

module _ ⦃b : Buf⦄ where
  -- No bytes read as this frame.
  abbrev pub Unreadable : Frame → Type 0
  Unreadable f = (buf rest : List ℕ) → read_frame buf ≢ ok (f, rest)

  sequenced-Unreadable :
      (f : Frame)
      → Reliability.is_sequenced f.flags.reliability ≡ true
      → f.seq_frame_index ≡ none
      → Unreadable f
  sequenced-Unreadable f e n buf rest r =
      let a : Announced f = read_frame-Announced buf rest f r in cc (a.sequenced, ap is_some n, e)

  frames-Unreadable :
      (mtu w : ℕ) (r : Reliability) (o : Option Ordered) (fs : List Frame)
      → Reliability.is_sequenced r ≡ true
      → AreFrames mtu r o w fs
      → All Unreadable fs
  frames-Unreadable mtu w r o [] e a = tt
  frames-Unreadable mtu w r o (f ∷ fs) e (rel, a, n, o', s, rest) = (
    sequenced-Unreadable f (ap Reliability.is_sequenced rel ∙ e) n,
    frames-Unreadable mtu (w + 1) r o fs e rest,
  )

  sequenced_used :
      (r used : Reliability)
      → (used ≡ r) ⊎ (used ≡ splittable r)
      → Reliability.is_sequenced r ≡ true
      → Reliability.is_sequenced used ≡ true
  sequenced_used r used (inl e) h = ap Reliability.is_sequenced e ∙ h
  sequenced_used r used (inr e) h = ap Reliability.is_sequenced e ∙ splittable-sequenced r ∙ h

  -- Of a message with a sequenced reliability, sent from a state that is ready for it, no frame is what
  -- `Frame::read` returns on any bytes, since it has no sequence index; there is one such frame at least.
  pub start_send-Unreadable :
      (s : Fragmenter) (msg : Message)
      → Ready s msg
      → Reliability.is_sequenced msg.reliability ≡ true
      → (x : Sent s msg (start_send s msg)) × All Unreadable x.frames
  start_send-Unreadable s msg ready e =
      let x : Sent s msg (start_send s msg) = start_send-Sent s msg ready in
      (
        x,
        frames-Unreadable s.mtu s.reliable_write_index x.used _ x.frames
            (sequenced_used msg.reliability x.used x.used_for e) x.framed,
      )
