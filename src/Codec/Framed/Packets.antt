-- ===== src/Codec/Framed/Packets.antt =====
-- A `Framed` gives the packets of its datagrams one by one, and sends one packet in a datagram.
use mathlib.Core.Path.{subst}
use raknet_rs.Prelude.{
  ℕ, zero, suc, ◌<◌, ◌≡◌, refl, sym, ap, ◌∙◌, Bool, true, false, List, [], ◌∷◌, ◌++◌, none, some,
  length, if◌then◌else◌, arith, Bool-cases, inl, inr,
}
use raknet_rs.Prelude.Outcome.{Outcome, ok, err, panic, stuck, ◌>>=◌}
use raknet_rs.State.{Poll, pending, done, failed}
use raknet_rs.Packet.Buf.{Buf}
use raknet_rs.Packet.Addr.{SocketAddr}
use raknet_rs.Packet.Dispatch
use raknet_rs.Packet.Dispatch.{Packet}
use raknet_rs.Codec.Framed.{
  Event, received, failure, Sending, waiting, sent, refused, Framed, cleared, decoded, decode,
  receive, poll_next, wrote, poll_flush_0, start_send,
}

-- Nothing of an earlier datagram is in the buffer.
pub record Idle {S : Type 0} (f : Framed S) : Type 0 where
  pub readable : f.is_readable ≡ false
  pub rd : f.rd ≡ []

module _ ⦃b : Buf⦄ where
  abbrev pub Item : Type 0
  Item = Packet × SocketAddr

  abbrev pub before_rest :
      Outcome (Packet × List ℕ) → SocketAddr → Outcome (List Item) → Outcome (List Item)
  before_rest (ok (packet, left)) addr rest = do items ← rest; ok ((packet, addr) ∷ items)
  before_rest (err e) addr rest = rest
  before_rest panic addr rest = panic
  before_rest stuck addr rest = stuck

  -- Every datagram read by itself, those left out that have no packet.
  unfoldable pub packets : List Event → Outcome (List Item)
  packets [] = ok []
  packets (received bytes addr ∷ events) = before_rest (Dispatch.read bytes) addr (packets events)
  packets (failure ∷ events) = packets events

  module _ {S : Type 0} where
    -- Polls until one waits.
    unfoldable pub polls : ℕ → List Event → Framed S → Outcome (List Item)
    polls zero events f = stuck
    polls (suc fuel) events f = poll_next events f >>= λ x. elim x.0 [
      | some item ↦ (do items ← polls fuel x.2 x.1; ok (item ∷ items))
      | none ↦ ok []
    ]

    decode-Idle : (f : Framed S) → Idle f → decode f ≡ ok (none, f)
    unfolding decode
    decode-Idle f i = rw i.readable refl

    cleared-Idle : (f : Framed S) → Idle (cleared f)
    cleared-Idle f = record { readable = refl; rd = refl }

    -- An idle frame takes the next event.
    poll_next-Idle :
        (event : Event) (events : List Event) (f : Framed S)
        → Idle f
        → poll_next (event ∷ events) f ≡ poll_next events (receive event f)
    unfolding poll_next
    poll_next-Idle event events f i = rw (decode-Idle f i) refl

    -- A datagram without a packet is cleared.
    poll_next-err :
        (events : List Event) (f : Framed S)
        → decode f ≡ ok (none, cleared f)
        → poll_next events f ≡ poll_next events (cleared f)
    unfolding poll_next
    poll_next-err [] f e = rw (e, decode-Idle (cleared f) (cleared-Idle f)) refl
    poll_next-err (event ∷ events) f e = rw (e, decode-Idle (cleared f) (cleared-Idle f)) refl

    poll_next-some :
        (events : List Event) (f : Framed S) (item : Item)
        → decode f ≡ ok (some item, cleared f)
        → poll_next events f ≡ ok (some item, cleared f, events)
    unfolding poll_next
    poll_next-some [] f item e = rw e refl
    poll_next-some (event ∷ events) f item e = rw e refl

    poll_next-panic :
        (events : List Event) (f : Framed S) → decode f ≡ panic → poll_next events f ≡ panic
    unfolding poll_next
    poll_next-panic [] f e = rw e refl
    poll_next-panic (event ∷ events) f e = rw e refl

    poll_next-stuck :
        (events : List Event) (f : Framed S) → decode f ≡ stuck → poll_next events f ≡ stuck
    unfolding poll_next
    poll_next-stuck [] f e = rw e refl
    poll_next-stuck (event ∷ events) f e = rw e refl

    -- `decode` of a datagram.
    decode-received :
        (bytes : List ℕ) (addr : SocketAddr) (f : Framed S) (r : Outcome (Packet × List ℕ))
        → Idle f
        → Dispatch.read bytes ≡ r
        → decode (receive (received bytes addr) f) ≡ decoded (receive (received bytes addr) f) r
    unfolding decode receive
    decode-received bytes addr f r i e =
        ap (decoded (receive (received bytes addr) f))
          (ap (λ rd. Dispatch.read (rd ++ bytes)) i.rd ∙ e)

    -- However the datagrams and the failures of the socket come, an idle frame gives, within one poll more
    -- than there are of them, exactly the packets of the datagrams that have one, in order, each with the
    -- address that it came from; nothing of one datagram goes into the next. It panics only where
    -- `Packet::read` does.
    pub polls-packets :
        (fuel : ℕ) (events : List Event) (f : Framed S)
        → Idle f
        → length events < fuel
        → polls fuel events f ≡ packets events
    unfolding polls packets decoded receive
    polls-packets zero events f i h = absurd (omega arith)
    polls-packets (suc fuel) [] f i h = unfold poll_next in rw (decode-Idle f i) refl
    polls-packets (suc fuel) (failure ∷ events) f i h =
        rw (poll_next-Idle failure events f i)
          (polls-packets (suc fuel) events f' idle (omega arith))
      where
        f' : Framed S
        f' = receive failure f

        idle : Idle f'
        idle = record { readable = i.readable; rd = refl }
    polls-packets (suc fuel) (received bytes addr ∷ events) f i h =
        rw (poll_next-Idle (received bytes addr) events f i) (
          by_outcome (Dispatch.read bytes) refl
            (polls-packets fuel events (cleared (receive (received bytes addr) f))
              (cleared-Idle (receive (received bytes addr) f)))
            (polls-packets (suc fuel) events (cleared (receive (received bytes addr) f))
              (cleared-Idle (receive (received bytes addr) f)) (omega arith)))
      where
        f' : Framed S
        f' = receive (received bytes addr) f

        by_outcome :
            (r : Outcome (Packet × List ℕ))
            → Dispatch.read bytes ≡ r
            → (length events < fuel → polls fuel events (cleared f') ≡ packets events)
            → polls (suc fuel) events (cleared f') ≡ packets events
            → polls (suc fuel) events f' ≡ before_rest r addr (packets events)
        by_outcome (ok (packet, left)) e next same =
            rw
              (
                poll_next-some events f' (packet, addr) (decode-received bytes addr f _ i e),
                next (omega arith),
              )
              refl
        by_outcome (err c) e next same =
            rw (poll_next-err events f' (decode-received bytes addr f _ i e)) same
        by_outcome panic e next same =
            rw (poll_next-panic events f' (decode-received bytes addr f _ i e)) refl
        by_outcome stuck e next same =
            rw (poll_next-stuck events f' (decode-received bytes addr f _ i e)) refl

    -- What is flushed has left the buffer.
    abbrev pub Clean : Framed S → Type 0
    Clean f = f.flushed ≡ true → f.wr ≡ []

    module _ (poll_send_to : List ℕ → SocketAddr → S → Sending × S) where
      flushed-empty :
          (f f' : Framed S)
          → Clean f
          → poll_flush_0 poll_send_to f ≡ (done, f')
          → (f'.wr ≡ []) × (f'.flushed ≡ true)
      unfolding poll_flush_0
      flushed-empty f f' c e = elim (Bool-cases f.flushed) [
        | inl t ↦
            (let same : f ≡ f' = ap (λ (x : Poll × Framed S). x.1) (subst Answer t e) in
              (
                ap (λ (x : Framed S). x.wr) (sym same) ∙ c t,
                ap (λ (x : Framed S). x.flushed) (sym same) ∙ t,
              ))
        | inr t ↦ by_answer (poll_send_to f.wr f.out_addr f.socket) (subst Answer t e)
      ]
        where
          Answer : Bool → Type 0
          Answer b =
              (if b then (done, f) else wrote f (poll_send_to f.wr f.out_addr f.socket))
              ≡ (done, f')

          by_answer :
              (x : Sending × S) → wrote f x ≡ (done, f') → (f'.wr ≡ []) × (f'.flushed ≡ true)
          by_answer (waiting, socket) e = absurd (not_done (ap (λ (x : Poll × Framed S). x.0) e))
            where
              not_done : pending ≡ done → ⊥
              not_done e = cc
          by_answer (refused, socket) e = absurd (not_done (ap (λ (x : Poll × Framed S). x.0) e))
            where
              not_done : failed ≡ done → ⊥
              not_done e = cc
          by_answer (sent n, socket) e = (
            ap (λ (x : Poll × Framed S). x.1.wr) (sym e),
            ap (λ (x : Poll × Framed S). x.1.flushed) (sym e),
          )

      -- A packet that is sent after a flush that is done is alone in the buffer, and the next flush sends its
      -- bytes, and no others, to its address in one datagram.
      pub start_send-Alone :
          (f f' : Framed S) (packet : Packet) (addr : SocketAddr) (bytes : List ℕ)
          → Clean f
          → poll_flush_0 poll_send_to f ≡ (done, f')
          → Dispatch.write packet ≡ ok bytes
          → (f'' : Framed S) × (start_send packet addr f' ≡ ok f'')
            × Clean f''
            × (poll_flush_0 poll_send_to f'' ≡ wrote f'' (poll_send_to bytes addr f'.socket))
      unfolding start_send poll_flush_0
      start_send-Alone f f' packet addr bytes c e w =
          let (empty, t) = flushed-empty f f' c e in
          (
            record f' { wr = f'.wr ++ bytes; out_addr = addr; flushed = false },
            rw w refl,
            λ x. absurd (false_ne_true x),
            ap
                (λ wr.
                  wrote (record f' { wr = f'.wr ++ bytes; out_addr = addr; flushed = false })
                    (poll_send_to (wr ++ bytes) addr f'.socket))
                empty,
          )
        where
          false_ne_true : false ≡ true → ⊥
          false_ne_true x = cc
