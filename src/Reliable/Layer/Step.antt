-- ===== src/Reliable/Layer/Step.antt =====
-- Steps of `try_empty` that do not panic, and chains of them.
use mathlib.Core.Path.{subst}
use raknet_rs.Prelude.{◌+◌, ◌^◌, ◌≤◌, ◌<◌, ◌≡◌, ◌≢◌, refl, sym, Bool, true, false, length, arith}
use raknet_rs.Prelude.Outcome.{Outcome, ok}
use raknet_rs.State.{Poll, pending, done, failed}
use raknet_rs.Packet.Dispatch.{Packet}
use raknet_rs.Reliable
use raknet_rs.Reliable.{Heap, SendBuffer, Choice, mean}
use raknet_rs.Reliable.Layer.{PacketSink, ReliableLayer}
use raknet_rs.Reliable.Layer.Flush.{
  Flow, on, out, and_then, Flushing, ready, await, sent, start_packet, backlog,
}
use raknet_rs.Reliable.Layer.Inflight.{Sound}

module _ {H F : Type 0} (heap : Heap H) (sink : PacketSink F) where
  abbrev pub Layer : Type 0
  Layer = ReliableLayer F H

  -- Sound, in datagrams that have room for an acknowledgement, and with a number for each frame set.
  pub record CanSend (l : Layer) : Type 0 where
    pub sound : Sound heap l
    pub mtu : 7 ≤ l.peer.mtu
    pub numbers : l.seq_num_write_index + backlog heap sink l < 2 ^ 24

  -- From a layer to a later one: nothing more waits, and nothing becomes unsound.
  pub record Advances (l l' : Layer) : Type 0 where
    pub can_send : CanSend l'
    pub acks : length l'.link.outgoing_ack ≤ length l.link.outgoing_ack
    pub nacks : length l'.link.outgoing_nack ≤ length l.link.outgoing_nack
    pub unconnected : length l'.link.unconnected ≤ length l.link.unconnected
    pub frames : Reliable.len heap l'.buf ≤ Reliable.len heap l.buf

  pub Advances-trans : (l l' l'' : Layer) → Advances l l' → Advances l' l'' → Advances l l''
  Advances-trans l l' l'' a b = record {
    can_send = b.can_send;
    acks = omega (arith, a.acks, b.acks);
    nacks = omega (arith, a.nacks, b.nacks);
    unconnected = omega (arith, a.unconnected, b.unconnected);
    frames = omega (arith, a.frames, b.frames);
  }

  pub Advances-refl : (l : Layer) → CanSend l → Advances l l
  Advances-refl l c = record {
    can_send = c;
    acks = omega arith;
    nacks = omega arith;
    unconnected = omega arith;
    frames = omega arith;
  }

  -- What a step leads to: on, with `Q`, or out of the function, which is not flushed then.
  abbrev pub After : Layer → (Layer → Type 0) → Flow (Flushing heap sink) → Type 0
  After l Q (on s) = Advances l s.layer × Q s.layer
  After l Q (out poll s) = Sound heap s.layer × (poll ≢ done)

  -- A step that does not panic, and what it leads to.
  abbrev pub Run : Layer → (Layer → Type 0) → Outcome (Flow (Flushing heap sink)) → Type 0
  Run l Q m = (flow : Flow (Flushing heap sink)) × (m ≡ ok flow) × After l Q flow

  pub then_After :
      (l : Layer) (Q R : Layer → Type 0) (flow : Flow (Flushing heap sink))
      (k : Flushing heap sink → Outcome (Flow (Flushing heap sink)))
      → After l Q flow
      → ((s : Flushing heap sink) → Advances l s.layer → Q s.layer → Run s.layer R (k s))
      → Run l R (and_then (ok flow) k)
  then_After l Q R (on s) k (a, q) h = let (flow, e, after) = h s a q in (flow, e, later flow after)
    where
      later : (flow : Flow (Flushing heap sink)) → After s.layer R flow → After l R flow
      later (on s') (b, r) = (Advances-trans l s.layer s'.layer a b, r)
      later (out poll s') x = x
  then_After l Q R (out poll s) k a h = (out poll s, refl, a)

  pub and_then-Run :
      (l : Layer) (Q R : Layer → Type 0) (m : Outcome (Flow (Flushing heap sink)))
      (k : Flushing heap sink → Outcome (Flow (Flushing heap sink)))
      → Run l Q m
      → ((s : Flushing heap sink) → Advances l s.layer → Q s.layer → Run s.layer R (k s))
      → Run l R (and_then m k)
  and_then-Run l Q R m k (flow, e, after) h =
      subst (λ x. Run l R (and_then x k)) (sym e) (then_After l Q R flow k after h)

  abbrev pub Anything : Layer → Type 0
  Anything l = Unit

  pub Sound-with_frame :
      (l : Layer) (frame : F) → Sound heap l → Sound heap (record l { frame = frame })
  Sound-with_frame l frame s = record {
    tracked = s.tracked;
    stored = s.stored;
    fit = s.fit;
    acks = s.acks;
    nacks = s.nacks;
  }

  pub CanSend-with_frame :
      (l : Layer) (frame : F) → CanSend l → CanSend (record l { frame = frame })
  CanSend-with_frame l frame c = record {
    sound = Sound-with_frame l frame c.sound;
    mtu = c.mtu;
    numbers = c.numbers;
  }

  pub Advances-with_frame :
      (l l' : Layer) (frame : F) → Advances l l' → Advances l (record l' { frame = frame })
  Advances-with_frame l l' frame a = record {
    can_send = CanSend-with_frame l' frame a.can_send;
    acks = a.acks;
    nacks = a.nacks;
    unconnected = a.unconnected;
    frames = a.frames;
  }

  pub await-Run :
      (s : Flushing heap sink) → CanSend s.layer → Run s.layer Anything (await heap sink s)
  await-Run s c = (_, refl, answered (sink.poll_ready s.layer.frame))
    where
      answered : (x : Poll × F) → After s.layer Anything (ready heap sink s x)
      answered (done, frame) =
          (Advances-with_frame s.layer s.layer frame (Advances-refl s.layer c), tt)
      answered (pending, frame) = (Sound-with_frame s.layer frame c.sound, λ e. cc)
      answered (failed, frame) = (Sound-with_frame s.layer frame c.sound, λ e. cc)

  -- `start_send` changes the frame below and nothing else.
  abbrev pub Frameless : (Layer → Type 0) → Type 0
  Frameless Q = (l : Layer) (frame : F) → Q l → Q (record l { frame = frame })

  pub start_packet-Run :
      (l : Layer) (Q : Layer → Type 0) (p : Packet) (s : Flushing heap sink)
      → Frameless Q
      → Advances l s.layer
      → Q s.layer
      → Run l Q (start_packet heap sink p s)
  start_packet-Run l Q p s free a q =
      (_, refl, answered (sink.start_send p s.layer.peer.addr s.layer.frame))
    where
      answered : (x : Bool × F) → After l Q (sent heap sink s x)
      answered (true, frame) = (Advances-with_frame l s.layer frame a, free s.layer frame q)
      answered (false, frame) = (Sound-with_frame s.layer frame a.can_send.sound, λ e. cc)

  pub Run-map :
      (l : Layer) (Q R : Layer → Type 0) (m : Outcome (Flow (Flushing heap sink)))
      → ((l' : Layer) → Advances l l' → Q l' → R l')
      → Run l Q m
      → Run l R m
  Run-map l Q R m f (flow, e, after) = (flow, e, mapped flow after)
    where
      mapped : (flow : Flow (Flushing heap sink)) → After l Q flow → After l R flow
      mapped (on s) (a, q) = (a, f s.layer a q)
      mapped (out poll s) x = x
