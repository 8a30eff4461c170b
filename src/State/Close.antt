-- ===== src/State/Close.antt =====
-- The handshake ends, and sends the notification once.
use raknet_rs.Prelude.{
  ℕ, zero, suc, ◌+◌, ◌<◌, ◌≡◌, ◌≢◌, refl, ◌∙◌, Bool, true, false, List, [], ◌∷◌, ◌⊎◌, inl, inr,
  Option, none, some, if◌then◌else◌, All, arith,
}
use raknet_rs.Packet.Body.{FrameBody, disconnect_notification}
use raknet_rs.Codec.Fragment.{Message}
use raknet_rs.State.{
  OutgoingState, connecting, first_close_wait, fin_wait, second_close_wait, finished, before_finish,
  Poll, pending, done, failed, Sink, Manager, forward, accepted, poll_ready, start_send,
  send_message, poll_flush, wait, notified, notify, round, close_loop, is_finished, poll_close,
  manage_outgoing_state,
}

-- A count of the notifications that a sink has taken: the sink adds none by itself, and takes one
-- where `start_send` says so.
pub record Counts {F : Type 0} (sink : Sink F) (sent : F → ℕ) : Type 0 where
  pub ready : (f : F) → sent (sink.poll_ready f).1 ≡ sent f
  pub flush : (f : F) → sent (sink.poll_flush f).1 ≡ sent f
  pub close : (f : F) → sent (sink.poll_close f).1 ≡ sent f
  pub notification :
      (f : F)
      → sent (sink.start_send disconnect_notification f).1
        ≡ sent f + (if (sink.start_send disconnect_notification f).0 then 1 else 0)
  pub other :
      (b : FrameBody) (f : F) → b ≢ disconnect_notification → sent (sink.start_send b f).1 ≡ sent f
  pub message : (msg : Message) (f : F) → sent (sink.send_message msg f).1 ≡ sent f

module _ {F : Type 0} (sink : Sink F) (sent : F → ℕ) (c : Counts sink sent) where
  -- The notification is sent exactly if the state is past it.
  abbrev pub Once : Manager F → Type 0
  Once m = sent m.frame ≡ (if before_finish m.state then 0 else 1)

  -- What the loop may come to: an answer that keeps the count, and is done only in the last state.
  abbrev pub Answered : Option (Poll × Manager F) → Type 0
  Answered none = ⊥
  Answered (some (done, m)) = Once m × (m.state ≡ finished) × (m.close_on_drop ≡ false)
  Answered (some (p, m)) = Once m

  -- How many rounds a state is from the end.
  abbrev left : OutgoingState → ℕ
  left connecting = 4
  left first_close_wait = 3
  left fin_wait = 2
  left second_close_wait = 1
  left finished = 0

  abbrev Stepped : OutgoingState → Manager F ⊎ (Poll × Manager F) → Type 0
  Stepped s (inl m) = Once m × (left m.state < left s)
  Stepped s (inr a) = Answered (some a)

  wait-Stepped :
      (m : Manager F) (s next : OutgoingState) (p : Poll × F)
      → left next < left s
      → before_finish s ≡ before_finish next
      → m.state ≡ s
      → sent p.1 ≡ sent m.frame
      → Once m
      → Stepped s (wait sink m next p)
  wait-Stepped m s next (done, f) h e k g o = (cc, h)
  wait-Stepped m s next (pending, f) h e k g o = cc
  wait-Stepped m s next (failed, f) h e k g o = cc

  notified-Stepped :
      (m : Manager F) (p : Bool × F)
      → m.state ≡ fin_wait
      → sent p.1 ≡ (if p.0 then 1 else 0)
      → Stepped fin_wait (notified sink m p)
  notified-Stepped m (true, f) e h = (h, omega arith)
  notified-Stepped m (false, f) e h = cc

  notify-Stepped :
      (m : Manager F) (p : Poll × F)
      → m.state ≡ fin_wait
      → sent p.1 ≡ 0
      → Stepped fin_wait (notify sink m p)
  notify-Stepped m (done, f) e h =
      notified-Stepped m (sink.start_send disconnect_notification f) e
        (omega (arith, c.notification f, h))
  notify-Stepped m (pending, f) e h = cc
  notify-Stepped m (failed, f) e h = cc

  round-Stepped :
      (s : OutgoingState) (m : Manager F) → m.state ≡ s → Once m → Stepped s (round sink s m)
  unfolding round
  round-Stepped connecting m e o = (cc, omega arith)
  round-Stepped first_close_wait m e o =
      wait-Stepped m first_close_wait fin_wait (sink.poll_close m.frame) (omega arith) refl e
        (c.close m.frame) o
  round-Stepped fin_wait m e o = notify-Stepped m (sink.poll_ready m.frame) e (c.ready m.frame ∙ cc)
  round-Stepped second_close_wait m e o =
      wait-Stepped m second_close_wait finished (sink.poll_close m.frame) (omega arith) refl e
        (c.close m.frame) o
  round-Stepped finished m e o = (o, e, refl)

  close_loop-Answered :
      (rounds : ℕ) (m : Manager F)
      → left m.state < rounds
      → Once m
      → Answered (close_loop sink rounds m)
  unfolding close_loop
  close_loop-Answered zero m h o = absurd (omega arith)
  close_loop-Answered (suc rounds) m h o =
      go (round sink m.state m) (round-Stepped m.state m refl o)
        (λ m'. close_loop-Answered rounds m')
    where
      go :
          (r : Manager F ⊎ (Poll × Manager F))
          → Stepped m.state r
          → ((m' : Manager F)
              → left m'.state < rounds
              → Once m'
              → Answered (close_loop sink rounds m'))
          → Answered (elim r [ inl m' ↦ close_loop sink rounds m' | inr answer ↦ some answer ])
      go (inl m') (o', lt) next = next m' (omega arith) o'
      go (inr answer) a next = a

  left-lt : (s : OutgoingState) → left s < 5
  left-lt connecting = omega arith
  left-lt first_close_wait = omega arith
  left-lt fin_wait = omega arith
  left-lt second_close_wait = omega arith
  left-lt finished = omega arith

  -- The loop of `poll_close` ends. The count of notifications that the sink has taken stays 0 up to the
  -- state `FinWait` and 1 from then on, and the answer is done only in the last state, with the close
  -- event sent.
  pub poll_close-Answered : (m : Manager F) → Once m → Answered (poll_close sink m)
  unfolding poll_close
  poll_close-Answered m o = go (is_finished m.state)
    where
      go : (b : Bool) → Answered (if b then some (failed, m) else close_loop sink 5 m)
      go true = o
      go false = close_loop-Answered 5 m (left-lt m.state) o

  -- The calls of the sinks.
  pub data Call : Type 0 where
    ready : Call
    flush : Call
    close : Call
    send : FrameBody → Call
    message : Message → Call

  -- A call that does not give the notification to `start_send` itself.
  abbrev pub IsOther : Call → Type 0
  IsOther (send b) = b ≢ disconnect_notification
  IsOther k = Unit

  abbrev pub closed : Manager F → Option (Poll × Manager F) → Manager F
  closed m none = m
  closed m (some a) = a.1

  abbrev pub call : Call → Manager F → Manager F
  call ready m = (poll_ready sink m).1
  call flush m = (poll_flush sink m).1
  call close m = closed m (poll_close sink m)
  call (send b) m = (start_send sink b m).1
  call (message msg) m = (send_message sink msg m).1

  abbrev pub calls : List Call → Manager F → Manager F
  calls [] m = m
  calls (k ∷ ks) m = calls ks (call k m)

  call-Once : (k : Call) (m : Manager F) → IsOther k → Once m → Once (call k m)
  unfolding poll_ready poll_flush start_send send_message
  call-Once ready m n o = go (before_finish m.state)
    where
      go : (b : Bool) → Once (if b then forward sink m (sink.poll_ready m.frame) else (failed, m)).1
      go true = c.ready m.frame ∙ o
      go false = o
  call-Once flush m n o = c.flush m.frame ∙ o
  call-Once close m n o = go (poll_close sink m) (poll_close-Answered m o)
    where
      go : (r : Option (Poll × Manager F)) → Answered r → Once (closed m r)
      go none a = absurd a
      go (some (done, m')) a = a.0
      go (some (pending, m')) a = a
      go (some (failed, m')) a = a
  call-Once (send b) m n o = go (before_finish m.state)
    where
      go :
          (t : Bool)
          → Once (if t then accepted sink m (sink.start_send b m.frame) else (false, m)).1
      go true = c.other b m.frame n ∙ o
      go false = o
  call-Once (message msg) m n o = c.message msg m.frame ∙ o

  -- After any calls of the sinks, in any order, on a new manager over a sink that has taken no
  -- notification, the sink has taken none if the state is at most `FinWait`, and one if it is past that.
  -- No call gives the notification itself to `start_send`.
  pub calls-Once :
      (ks : List Call) (frame : F) (close_on_drop : Bool)
      → All IsOther ks
      → sent frame ≡ 0
      → Once (calls ks (manage_outgoing_state sink frame close_on_drop))
  calls-Once ks frame close_on_drop ns h =
      from ks (manage_outgoing_state sink frame close_on_drop) ns h
    where
      from : (ks : List Call) (m : Manager F) → All IsOther ks → Once m → Once (calls ks m)
      from [] m ns o = o
      from (k ∷ ks) m (n, ns) o = from ks (call k m) ns (call-Once k m n o)
