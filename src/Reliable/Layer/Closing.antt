-- ===== src/Reliable/Layer/Closing.antt =====
-- Rounds of `poll_close`: what a round comes to, and where one leaves everything as it was.
use raknet_rs.Prelude.{
  ℕ, ◌+◌, ◌<◌, ◌≤◌, ◌^◌, ◌≡◌, refl, sym, ap, ◌∙◌, Bool, true, false, ◌&&◌, List, [], ◌∷◌, ◌++◌, All,
  lt→ltb, ◌==◌, arith, Bool-cases, inl, inr,
}
use raknet_rs.Prelude.Outcome.{Outcome, ok, assert, ◌>>◌, ◌>>=◌}
use raknet_rs.State.{Poll, pending, done, failed}
use raknet_rs.Flush.{
  FlushStrategy, Tag, disabled, flushed, is_enabled, unless_disabled, check_flushed,
}
use raknet_rs.Link.{is_empty, turn_off_waking}
use raknet_rs.Reliable
use raknet_rs.Reliable.{Heap, SendBuffer}
use raknet_rs.Reliable.Resend.{ResendMap, Entries, is_none_left, process_stales}
use raknet_rs.Reliable.Layer.{
  PacketSink, ReliableLayer, drain_inflight, process_inflight, for_each_ack, for_each_nack,
}
use raknet_rs.Reliable.Layer.Flush.{Flow, on, out, emptiness, flush_loop, backlog, try_empty}
use raknet_rs.Reliable.Layer.Inflight.{Sound}
use raknet_rs.Reliable.Layer.Flushed.{try_empty-Flushed}
use raknet_rs.Reliable.Layer.Close.{
  Clock, poll_wait, nothing_to_send, close_round, close_loop, when_emptied, when_flushed,
  close_or_wait,
}

-- A strategy that asks for all, as that of a close does.
pub record AsksAll (strategy : FlushStrategy) : Type 0 where
  pub ack : is_enabled strategy.ack_tag ≡ true
  pub nack : is_enabled strategy.nack_tag ≡ true
  pub pack : is_enabled strategy.pack_tag ≡ true

enabled_means :
    (t : Tag) (empty ret : Bool)
    → is_enabled t ≡ true
    → unless_disabled t empty ret ≡ (ret && empty)
unfolding unless_disabled is_enabled
enabled_means disabled empty ret e = absurd (false_ne_true e)
  where
    false_ne_true : false ≡ true → ⊥
    false_ne_true e = cc
enabled_means (flushed n) empty ret e = refl

all_empty :
    (t : Tag) (empty ret : Bool) → empty ≡ true → ret ≡ true → unless_disabled t empty ret ≡ true
unfolding unless_disabled
all_empty disabled empty ret e r = r
all_empty (flushed n) empty ret e r = ground arith

module _ {H F : Type 0} (heap : Heap H) (sink : PacketSink F) where
  flushed_nothing :
      (strategy : FlushStrategy) (l : ReliableLayer F H)
      → AsksAll strategy
      → check_flushed strategy (emptiness heap sink l) ≡ true
      → nothing_to_send heap sink l ≡ true
  unfolding check_flushed
  flushed_nothing strategy l a e = ground (
    arith,
    sym (
          enabled_means strategy.pack_tag
            (is_empty l.link.unconnected && (Reliable.len heap l.buf == 0)) _ a.pack)
        ∙ e,
    enabled_means strategy.nack_tag (is_empty l.link.outgoing_nack)
        (unless_disabled strategy.ack_tag (is_empty l.link.outgoing_ack) true) a.nack,
    enabled_means strategy.ack_tag (is_empty l.link.outgoing_ack) true a.ack,
  )

  nothing_flushed :
      (strategy : FlushStrategy) (l : ReliableLayer F H)
      → nothing_to_send heap sink l ≡ true
      → check_flushed strategy (emptiness heap sink l) ≡ true
  unfolding check_flushed
  nothing_flushed strategy l e = all_empty strategy.pack_tag _ _ (ground arith) (
      all_empty strategy.nack_tag _ _ (ground arith)
        (all_empty strategy.ack_tag _ _ (ground arith) refl))

  Sound-with_frame :
      (l : ReliableLayer F H) (frame : F) → Sound heap l → Sound heap (record l { frame = frame })
  Sound-with_frame l frame s = record {
    tracked = s.tracked;
    stored = s.stored;
    fit = s.fit;
    acks = s.acks;
    nacks = s.nacks;
  }

  -- What a round of `poll_close` leads to: on, or out of it, with nothing left where it is done.
  abbrev pub Closed : Flow (ReliableLayer F H) → Type 0
  Closed (on l) = Sound heap l
  Closed (out poll l) =
      Sound heap l × (poll ≡ done → (nothing_to_send heap sink l ≡ true) × (l.resend.reliable ≡ []))

  none_left : (m : Entries) → is_none_left heap m ≡ true → m ≡ []
  none_left [] e = refl
  none_left (x ∷ m) e = absurd cc

  close_or_wait-Closed :
      (now : ℕ) (l : ReliableLayer F H)
      → Sound heap l
      → nothing_to_send heap sink l ≡ true
      → Closed (close_or_wait heap sink now l)
  close_or_wait-Closed now l s e = elim (Bool-cases (is_none_left heap l.resend.reliable)) [
    | inl n ↦ rw n (closed_below (sink.poll_close l.frame) (none_left l.resend.reliable n))
    | inr n ↦ rw n (elim (Bool-cases (poll_wait now l.resend)) [
      | inl w ↦ rw w s
      | inr w ↦ rw w (s, λ d. absurd (pending_ne_done d))
    ])
  ]
    where
      pending_ne_done : pending ≡ done → ⊥
      pending_ne_done d = cc

      closed_below :
          (x : Poll × F)
          → l.resend.reliable ≡ []
          → Closed (out x.0 (record l { link = turn_off_waking l.link; frame = x.1 }))
      closed_below (poll, frame) m = (
        record {
          tracked = s.tracked;
          stored = s.stored;
          fit = s.fit;
          acks = s.acks;
          nacks = s.nacks;
        },
        λ d. (e, m),
      )

  when_flushed-Closed :
      (now : ℕ) (l : ReliableLayer F H) (x : Poll × F)
      → Sound heap l
      → nothing_to_send heap sink l ≡ true
      → Closed (when_flushed heap sink now l x)
  when_flushed-Closed now l (done, frame) s e =
      close_or_wait-Closed now (record l { frame = frame }) (Sound-with_frame l frame s) e
  when_flushed-Closed now l (pending, frame) s e = (Sound-with_frame l frame s, λ d. absurd cc)
  when_flushed-Closed now l (failed, frame) s e = (Sound-with_frame l frame s, λ d. absurd cc)

  -- A round of the closing of a sound layer does not panic, and its debug assertion holds, whatever the frame
  -- below answers. The layer is sound still, and where the round is done nothing is left to send or in
  -- flight. The strategy asks for all, and the layer has the mtu and the numbers of a flush.
  pub close_round-Closed :
      (strategy : FlushStrategy) (clock : Clock) (l : ReliableLayer F H)
      → AsksAll strategy
      → Sound heap l
      → 7 ≤ l.peer.mtu
      → l.seq_num_write_index + (l.resend.inflight + backlog heap sink l) < 2 ^ 24
      → (flow : Flow (ReliableLayer F H)) × (close_round heap sink strategy clock l ≡ ok flow)
        × Closed flow
  unfolding close_round
  close_round-Closed strategy clock l a s mtu numbers =
      let (poll, l', strategy', e, s', f) =
        try_empty-Flushed heap sink strategy clock.now clock.at l s mtu numbers in
      rw e (emptied poll l' strategy' s' f)
    where
      emptied :
          (poll : Poll) (l' : ReliableLayer F H) (strategy' : FlushStrategy)
          → Sound heap l'
          → (poll ≡ done → check_flushed strategy (emptiness heap sink l') ≡ true)
          → (flow : Flow (ReliableLayer F H)) × (when_emptied heap sink clock.waiting
                (poll, l', strategy')
              ≡ ok flow)
            × Closed flow
      emptied done l' strategy' s' f =
          let e : nothing_to_send heap sink l' ≡ true = flushed_nothing strategy l' a (f refl) in
          (
            when_flushed heap sink clock.waiting l' (sink.poll_flush l'.frame),
            ap
                (λ b.
                  assert b
                  >> ok (when_flushed heap sink clock.waiting l' (sink.poll_flush l'.frame)))
                e,
            when_flushed-Closed clock.waiting l' (sink.poll_flush l'.frame) s' e,
          )
      emptied pending l' strategy' s' f = (_, refl, (s', λ d. absurd cc))
      emptied failed l' strategy' s' f = (_, refl, (s', λ d. absurd cc))

  -- A layer that has nothing to send or to read and waits for acknowledgements, over a frame that has
  -- nothing to flush.
  pub record Waiting (l : ReliableLayer F H) : Type 0 where
    pub nothing : nothing_to_send heap sink l ≡ true
    pub acks : l.link.incoming_ack ≡ []
    pub nacks : l.link.incoming_nack ≡ []
    pub left : is_none_left heap l.resend.reliable ≡ false
    pub flush : sink.poll_flush l.frame ≡ (done, l.frame)

  -- A round at a time when an entry in flight has expired, and the scan for stale entries is not due.
  pub record Early (l : ReliableLayer F H) (clock : Clock) : Type 0 where
    pub early : clock.now < l.resend.last_record_expired_at
    pub expired : poll_wait clock.waiting l.resend ≡ true

  close_round-Waiting :
      (strategy : FlushStrategy) (clock : Clock) (l : ReliableLayer F H)
      → Waiting l
      → Early l clock
      → close_round heap sink strategy clock l ≡ ok (on l)
  unfolding close_round try_empty drain_inflight process_inflight for_each_ack for_each_nack
      process_stales flush_loop
  close_round-Waiting strategy clock l w t =
      let drained : drain_inflight heap sink clock.now l ≡ ok l =
        ap (λ m. m >>= back) processed ∙ ap (λ x. ok x) (same l w.acks w.nacks) in
      rw (drained, nothing_flushed strategy l w.nothing, w.nothing, w.flush, w.left, t.expired) refl
    where
      back : ResendMap × SendBuffer H → Outcome (ReliableLayer F H)
      back (resend, buf) = ok (record l {
        link = record l.link { incoming_ack = []; incoming_nack = [] };
        buf = buf;
        resend = resend;
      })

      processed :
          process_inflight heap l.link.incoming_ack l.link.incoming_nack clock.now l.resend l.buf
          ≡ ok (l.resend, l.buf)
      processed = rw (w.acks, w.nacks, w.left, lt→ltb _ _ t.early) refl

      same :
          (l : ReliableLayer F H)
          → l.link.incoming_ack ≡ []
          → l.link.incoming_nack ≡ []
          → record l { link = record l.link { incoming_ack = []; incoming_nack = [] } } ≡ l
      same l a n =
          λ i. record l { link = record l.link { incoming_ack = sym a i; incoming_nack = sym n i } }

  pub close_loop-Spins :
      (strategy : FlushStrategy) (clocks rest : List Clock) (l : ReliableLayer F H)
      → Waiting l
      → All (Early l) clocks
      → close_loop heap sink strategy (clocks ++ rest) l ≡ close_loop heap sink strategy rest l
  unfolding close_loop
  close_loop-Spins strategy [] rest l w t = refl
  close_loop-Spins strategy (clock ∷ clocks) rest l w (t, ts) =
      rw (close_round-Waiting strategy clock l w t) (close_loop-Spins strategy clocks rest l w ts)
