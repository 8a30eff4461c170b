-- ===== src/Reliable/Layer/Flushed.antt =====
-- `try_empty` returns, and where it is done it has flushed what it was asked to.
use raknet_rs.Prelude.{
  ℕ, zero, suc, ◌+◌, ◌^◌, ◌≤◌, ◌<◌, ◌≡◌, refl, sym, ◌∙◌, Bool, true, false, List, [], ◌∷◌, length,
  ltb, arith, Bool-cases, inl, inr, ltb→lt, ltb_false→le, eq→==,
}
use raknet_rs.Prelude.Outcome.{ok}
use raknet_rs.State.{Poll, pending, done, failed}
use raknet_rs.Flush.{
  FlushStrategy, Tag, disabled, flushed, is_enabled, unless_disabled, check_flushed,
}
use raknet_rs.Link.{is_empty}
use raknet_rs.Reliable
use raknet_rs.Reliable.{Heap}
use raknet_rs.Reliable.Layer.{PacketSink, ReliableLayer}
use raknet_rs.Reliable.Layer.Flush.{
  Flow, on, out, Flushing, emptiness, flush_loop, backlog, finish, try_empty, resume,
}
use raknet_rs.Reliable.Layer.Inflight.{Sound, drain_inflight-Sound}
use raknet_rs.Reliable.Layer.Step.{CanSend, Advances, After}
use raknet_rs.Reliable.Layer.Round.{Progress, round-Run}

unless_disabled-true :
    (t : Tag) (empty ret : Bool)
    → (is_enabled t ≡ true → empty ≡ true)
    → ret ≡ true
    → unless_disabled t empty ret ≡ true
unfolding unless_disabled is_enabled
unless_disabled-true disabled empty ret h r = r
unless_disabled-true (flushed n) empty ret h r = ground (arith, h refl)

is_empty-true {ℓ} : {A : Type ℓ} (xs : List A) → length xs ≡ 0 → is_empty xs ≡ true
is_empty-true [] e = refl
is_empty-true (x ∷ xs) e = absurd (omega arith)

module _ {H F : Type 0} (heap : Heap H) (sink : PacketSink F) where
  -- A layer that the strategy does not hold for flushed has less to send after a round.
  less_to_send :
      (strategy : FlushStrategy) (l l' : ReliableLayer F H)
      → Advances heap sink l l'
      → Progress heap sink strategy l l'
      → check_flushed strategy (emptiness heap sink l) ≡ false
      → backlog heap sink l' < backlog heap sink l
  unfolding check_flushed
  less_to_send strategy l l' a p e =
      elim (Bool-cases (ltb (backlog heap sink l') (backlog heap sink l))) [
        | inl less ↦ ltb→lt _ _ less
        | inr same ↦
            (let h = ltb_false→le _ _ same in
              let nothing =
                unless_disabled-true strategy.pack_tag _ _
                  (λ t. ground (
                    arith,
                    is_empty-true l.link.unconnected (
                        omega
                          (arith, h, a.acks, a.nacks, a.unconnected, a.frames, p.unconnected t)),
                    eq→== (Reliable.len heap l.buf) 0
                        (omega (arith, h, a.acks, a.nacks, a.unconnected, a.frames, p.frames t)),
                  ))
                  (unless_disabled-true strategy.nack_tag _ _
                    (λ t.
                      is_empty-true l.link.outgoing_nack
                        (omega (arith, h, a.acks, a.nacks, a.unconnected, a.frames, p.nacks t)))
                    (unless_disabled-true strategy.ack_tag _ _
                      (λ t.
                        is_empty-true l.link.outgoing_ack
                          (omega (arith, h, a.acks, a.nacks, a.unconnected, a.frames, p.acks t)))
                      refl)) in
              absurd (true_ne_false (sym nothing ∙ e)))
      ]
    where
      true_ne_false : true ≡ false → ⊥
      true_ne_false e = cc

  abbrev Ended : FlushStrategy → Poll × Flushing heap sink → Type 0
  Ended strategy (poll, s) =
      Sound heap s.layer
      × (poll ≡ done → check_flushed strategy (emptiness heap sink s.layer) ≡ true)

  flush_loop-Ended :
      (fuel : ℕ) (strategy : FlushStrategy) (at : ℕ → ℕ) (s : Flushing heap sink)
      → CanSend heap sink s.layer
      → backlog heap sink s.layer < fuel
      → (answer : Poll × Flushing heap sink) × (flush_loop heap sink fuel strategy at s ≡ ok answer)
        × Ended strategy answer
  unfolding flush_loop
  flush_loop-Ended zero strategy at s c h = absurd (omega arith)
  flush_loop-Ended (suc fuel) strategy at s c h =
      elim (Bool-cases (check_flushed strategy (emptiness heap sink s.layer))) [
        | inl e ↦ rw e ((done, s), refl, (c.sound, λ d. e))
        | inr e ↦
            (let (flow, r, after) = round-Run heap sink strategy at s c in
              let again =
                λ (s' : Flushing heap sink) (c' : CanSend heap sink s'.layer)
                    (less : backlog heap sink s'.layer < backlog heap sink s.layer).
                  flush_loop-Ended fuel strategy at s' c' (omega arith) in
              rw (e, r) (went flow again after e))
      ]
    where
      went :
          (flow : Flow (Flushing heap sink))
          → ((s' : Flushing heap sink)
              → CanSend heap sink s'.layer
              → backlog heap sink s'.layer < backlog heap sink s.layer
              → (answer : Poll × Flushing heap sink) × (flush_loop heap sink fuel strategy at s'
                  ≡ ok answer)
                × Ended strategy answer)
          → After heap sink s.layer (Progress heap sink strategy s.layer) flow
          → check_flushed strategy (emptiness heap sink s.layer) ≡ false
          → (answer : Poll × Flushing heap sink) × (resume
                (λ s'. flush_loop heap sink fuel strategy at s')
                flow
              ≡ ok answer)
            × Ended strategy answer
      went (on s') again (a, p) e =
          again s' a.can_send (less_to_send strategy s.layer s'.layer a p e)
      went (out poll s') again (sound, left) e = ((poll, s'), refl, (sound, λ d. absurd (left d)))

  -- The flush of a sound layer returns without a panic, whatever the frame below answers: the layer is
  -- sound still, and the rounds of the loop are enough. Where the flush is done, all is empty that the
  -- strategy asks to flush. The mtu is 7 at least, and there is a 24-bit number for each frame that waits
  -- or is in flight, and for each other packet to send.
  pub try_empty-Flushed :
      (strategy : FlushStrategy) (now : ℕ) (at : ℕ → ℕ) (l : ReliableLayer F H)
      → Sound heap l
      → 7 ≤ l.peer.mtu
      → l.seq_num_write_index + (l.resend.inflight + backlog heap sink l) < 2 ^ 24
      → (poll : Poll) × (l' : ReliableLayer F H) × (strategy' : FlushStrategy) × (try_empty heap
            sink strategy now at l
          ≡ ok (poll, l', strategy'))
        × Sound heap l'
        × (poll ≡ done → check_flushed strategy (emptiness heap sink l') ≡ true)
  unfolding try_empty
  try_empty-Flushed strategy now at l sound mtu numbers =
      let (l₁, e, s₁, m, i, p) = drain_inflight-Sound heap sink now l sound in
      let s : Flushing heap sink = record { layer = l₁; ack_cnt = 0; nack_cnt = 0; pack_cnt = 0 } in
      let c : CanSend heap sink l₁ = record {
        sound = s₁;
        mtu = rw p mtu;
        numbers = omega (arith, numbers, m, i);
      } in
      let (answer, f, ended) =
        flush_loop-Ended (suc (backlog heap sink l₁)) strategy at s c (omega arith) in
      rw (e, f) (finished answer ended)
    where
      finished :
          (answer : Poll × Flushing heap sink)
          → Ended strategy answer
          → (poll : Poll) × (l' : ReliableLayer F H) × (strategy' : FlushStrategy) × (ok
                (finish heap sink strategy answer)
              ≡ ok (poll, l', strategy'))
            × Sound heap l'
            × (poll ≡ done → check_flushed strategy (emptiness heap sink l') ≡ true)
      finished (done, s) (sound, f) = (_, _, _, refl, sound, f)
      finished (pending, s) (sound, f) = (_, _, _, refl, sound, f)
      finished (failed, s) (sound, f) = (_, _, _, refl, sound, f)
