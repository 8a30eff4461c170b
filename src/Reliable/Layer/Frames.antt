-- ===== src/Reliable/Layer/Frames.antt =====
-- The steps of `try_empty` that send unconnected packets and frame sets.
use mathlib.Core.Path.{subst}
use raknet_rs.Prelude.{
  ℕ, ◌+◌, ◌-◌, ◌^◌, ◌≤◌, ◌<◌, ◌≡◌, refl, sym, ap, Bool, true, false, ◌||◌, List, [], ◌∷◌, Option,
  none, some, ◌==◌, length, arith, Bool-cases, inl, inr,
}
use raknet_rs.Prelude.Outcome.{ok, ◌>>=◌}
use raknet_rs.Seq
use raknet_rs.Packet.Frame.{Frame, is_nil}
use raknet_rs.Packet.Dispatch.{unconnected}
use raknet_rs.Link.{pop_first}
use raknet_rs.Packet.Unconnected
use raknet_rs.Reliable
use raknet_rs.Reliable.{Heap, SendBuffer, Choice, mean}
use raknet_rs.Reliable.Pop.{Popping, pop-Popping, FramesFit, sizes-FramesFit}
use raknet_rs.Reliable.Resend.{ResendMap, remove}
use raknet_rs.Reliable.Resend.Stored.{Stored, Stored-mono, remove-Stored, remove_unsent, FitOption}
use raknet_rs.Reliable.Resend.Recorded.{record_frames-Recorded}
use raknet_rs.Reliable.Layer.{PacketSink, ReliableLayer}
use raknet_rs.Reliable.Layer.Flush.{
  Flow, on, out, and_then, Flushing, sent, send_unconnected, empty_unconnected, counted, keep,
  send_frames, empty_frames, backlog,
}
use raknet_rs.Reliable.Layer.Inflight.{Sound}
use raknet_rs.Reliable.Layer.Step.{
  CanSend, Advances, After, Run, Frameless, start_packet-Run, Sound-with_frame,
}

module _ {H F : Type 0} (heap : Heap H) (sink : PacketSink F) where
  abbrev pub FewerUnconnected : ReliableLayer F H → ReliableLayer F H → Type 0
  FewerUnconnected l l' = length l'.link.unconnected ≤ length l.link.unconnected - 1

  pub counted-After :
      (l : ReliableLayer F H) (Q : ReliableLayer F H → Type 0) (flow : Flow (Flushing heap sink))
      → After heap sink l Q flow
      → After heap sink l Q (counted heap sink flow)
  counted-After l Q (on s) a = a
  counted-After l Q (out poll s) a = a

  pub send_unconnected-Run :
      (l : ReliableLayer F H) (Q : ReliableLayer F H → Type 0) (packet : Option Unconnected.Packet)
      (s : Flushing heap sink)
      → Frameless heap sink Q
      → Advances heap sink l s.layer
      → Q s.layer
      → Run heap sink l Q (send_unconnected heap sink packet s)
  unfolding send_unconnected
  send_unconnected-Run l Q none s free a q = (_, refl, (a, q))
  send_unconnected-Run l Q (some p) s free a q =
      let (flow, e, after) = start_packet-Run heap sink l Q (unconnected p) s free a q in
      (
        counted heap sink flow,
        ap (λ m. m >>= λ x. ok (counted heap sink x)) e,
        counted-After l Q flow after,
      )

  pub next_shorter : (xs : List Unconnected.Packet) → length (pop_first xs).1 ≤ length xs - 1
  next_shorter [] = omega arith
  next_shorter (x ∷ xs) = omega arith

  pub empty_unconnected-Run :
      (s : Flushing heap sink)
      → CanSend heap sink s.layer
      → Run heap sink s.layer (FewerUnconnected s.layer) (empty_unconnected heap sink s)
  unfolding empty_unconnected
  empty_unconnected-Run s c =
      let shorter = next_shorter s.layer.link.unconnected in
      send_unconnected-Run s.layer (FewerUnconnected s.layer) (pop_first s.layer.link.unconnected).0
        _ (λ l frame q. q)
        (record {
          can_send = record {
            sound = record {
              tracked = c.sound.tracked;
              stored = c.sound.stored;
              fit = c.sound.fit;
              acks = c.sound.acks;
              nacks = c.sound.nacks;
            };
            mtu = c.mtu;
            numbers = omega (arith, c.numbers, shorter);
          };
          acks = omega arith;
          nacks = omega arith;
          unconnected = omega (arith, shorter);
          frames = omega arith;
        })
        shorter

  abbrev pub FewerFrames : ReliableLayer F H → ReliableLayer F H → Type 0
  FewerFrames l l' = Reliable.len heap l'.buf ≤ Reliable.len heap l.buf - 1

  -- The layer when a frame set has been sent.
  abbrev pub after_set : ReliableLayer F H → ResendMap → ReliableLayer F H
  after_set l r = record l { seq_num_write_index = l.seq_num_write_index + 1; resend = r }

  pub keep-Sound :
      (at : ℕ → ℕ) (c : Choice) (l : ReliableLayer F H)
      → Sound heap l
      → FramesFit (l.peer.mtu - 4) c.frames
      → l.seq_num_write_index + 1 < 2 ^ 24
      → (r : ResendMap) × (keep heap sink at c l ≡ ok (after_set l r)) × Sound heap (after_set l r)
  unfolding keep
  keep-Sound at c l s f lt = elim (Bool-cases c.reliable) [
    | inr e ↦ (
      l.resend,
      rw (e, Seq.add-ok l.seq_num_write_index 1 lt) refl,
      record {
        tracked = s.tracked;
        stored =
            Stored-mono index (index + 1) (l.peer.mtu - 4) l.resend.reliable (omega arith) s.stored;
        fit = s.fit;
        acks = s.acks;
        nacks = s.nacks;
      },
    )
    | inl e ↦
        (let room = l.peer.mtu - 4 in
          let (r, entry, k, t, found, g, n, lo, hi, m) =
            record_frames-Recorded (at index) index (mean heap c) c.frames l.resend s.tracked
              (remove_unsent index room index l.resend.reliable s.stored (omega arith)) in
          (
            r,
            rw (e, k, Seq.add-ok l.seq_num_write_index 1 lt) refl,
            record {
              tracked = t;
              stored = subst (Stored (index + 1) room) (sym m) (
                (omega arith, subst (FitOption room) (sym g) f),
                Stored-mono index (index + 1) room (remove index l.resend.reliable).1 (omega arith)
                    (remove-Stored index room index l.resend.reliable s.stored).1,
              );
              fit = s.fit;
              acks = s.acks;
              nacks = s.nacks;
            },
          ))
  ]
    where
      index : ℕ
      index = l.seq_num_write_index

  -- The layer with what `pop` leaves of its buffer.
  abbrev pub popped : ReliableLayer F H → SendBuffer H → ReliableLayer F H
  popped l rest = record l { buf = rest }

  pub popped-Sound :
      (l : ReliableLayer F H) (p : Popping heap l.peer.mtu l.buf)
      → Sound heap l
      → Sound heap (popped l p.rest)
  popped-Sound l p s = record {
    tracked = s.tracked;
    stored = s.stored;
    fit = p.kept (l.peer.mtu - 4) s.fit;
    acks = s.acks;
    nacks = s.nacks;
  }

  pub send_frames-Run :
      (at : ℕ → ℕ) (s : Flushing heap sink) (l : ReliableLayer F H) (c : Choice)
      → Sound heap s.layer
      → FramesFit (s.layer.peer.mtu - 4) c.frames
      → 7 ≤ s.layer.peer.mtu
      → s.layer.seq_num_write_index + 1 + backlog heap sink s.layer < 2 ^ 24
      → length s.layer.link.outgoing_ack ≤ length l.link.outgoing_ack
      → length s.layer.link.outgoing_nack ≤ length l.link.outgoing_nack
      → length s.layer.link.unconnected ≤ length l.link.unconnected
      → Reliable.len heap s.layer.buf + 1 ≤ Reliable.len heap l.buf
      → Run heap sink l (FewerFrames l) (send_frames heap sink at c s)
  unfolding send_frames
  send_frames-Run at s l c sound f mtu numbers ha hn hu hb =
      went (sink.start_send _ s.layer.peer.addr s.layer.frame)
    where
      went :
          (x : Bool × F)
          → Run heap sink l (FewerFrames l) (
              and_then (ok (sent heap sink s x)) (λ s'. do
                layer ← keep heap sink at c s'.layer
                ok (on (record s' { layer = layer; pack_cnt = s'.pack_cnt + 1 }))))
      went (false, frame) = (_, refl, (Sound-with_frame heap sink s.layer frame sound, λ e. cc))
      went (true, frame) =
          let (r, e, k) =
            keep-Sound at c (record s.layer { frame = frame })
              (Sound-with_frame heap sink s.layer frame sound) f (omega arith) in
          let s' : Flushing heap sink = record s {
            layer = after_set (record s.layer { frame = frame }) r;
            pack_cnt = s.pack_cnt + 1;
          } in
          (
            on s',
            rw e refl,
            (
              record {
                can_send = record { sound = k; mtu = mtu; numbers = omega arith };
                acks = ha;
                nacks = hn;
                unconnected = hu;
                frames = omega arith;
              },
              omega arith,
            ),
          )

  pub length-is_nil : (fs : List Frame) → is_nil fs ≡ false → 0 < length fs
  unfolding is_nil
  length-is_nil [] e = absurd cc
  length-is_nil (f ∷ fs) e = omega arith

  pub is_nil-length : (fs : List Frame) → is_nil fs ≡ true → length fs ≡ 0
  unfolding is_nil
  is_nil-length [] e = refl
  is_nil-length (f ∷ fs) e = absurd cc

  pub empty_frames-Run :
      (at : ℕ → ℕ) (s : Flushing heap sink)
      → CanSend heap sink s.layer
      → Run heap sink s.layer (FewerFrames s.layer) (empty_frames heap sink at s)
  unfolding empty_frames
  empty_frames-Run at s c =
      let l = s.layer in
      let p = pop-Popping heap l.peer.mtu l.buf (omega (arith, c.mtu)) in
      let sound = popped-Sound l p c.sound in
      elim (Bool-cases (is_nil p.choice.frames)) [
        | inl e ↦
            (let left : Reliable.len heap p.rest ≡ 0 =
                p.drained c.sound.fit (is_nil-length p.choice.frames e) in
              rw (p.returns, e, left, e)
                (
                  _,
                  refl,
                  (
                    record {
                      can_send = record {
                        sound = sound;
                        mtu = c.mtu;
                        numbers = omega (arith, c.numbers, p.counted);
                      };
                      acks = omega arith;
                      nacks = omega arith;
                      unconnected = omega arith;
                      frames = omega (arith, p.counted);
                    },
                    omega (arith, left),
                  ),
                ))
        | inr e ↦
            (let some_frame = length-is_nil p.choice.frames e in
              rw (p.returns, e, or_true (Reliable.len heap p.rest == 0), e)
                (send_frames-Run at _ l p.choice sound
                  (sizes-FramesFit (l.peer.mtu - 4) p.choice.frames (omega (arith, p.roomy))) c.mtu
                  (omega (arith, c.numbers, p.counted, some_frame)) (omega arith) (omega arith)
                  (omega arith) (omega (arith, p.counted, some_frame))))
      ]
    where
      or_true : (x : Bool) → (x || true) ≡ true
      or_true true = refl
      or_true false = refl
