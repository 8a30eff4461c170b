-- ===== src/Reliable/Layer/Acks.antt =====
-- The steps of `try_empty` that send acks and nacks.
use mathlib.Core.Path.{subst}
use raknet_rs.Prelude.{
  ℕ, ◌+◌, ◌-◌, ◌≤◌, ◌≡◌, refl, sym, true, List, [], ◌∷◌, ◌++◌, Option, none, some, length, All,
  arith, Bool-cases, inl, inr, le→leb,
}
use raknet_rs.Prelude.Outcome.{ok}
use raknet_rs.Packet.Ack.{AckOrNack, extend_from, total_cnt}
use raknet_rs.Packet.Ack.Extend.{HasNext, expand, extend_from_lossless}
use raknet_rs.Packet.Ack.Wire.{total, total_cnt-total}
use raknet_rs.Flush.{FlushStrategy, is_enabled}
use raknet_rs.Link.{process_outgoing_ack, process_outgoing_nack}
use raknet_rs.Reliable.{Heap}
use raknet_rs.Reliable.Layer.{PacketSink, ReliableLayer}
use raknet_rs.Reliable.Layer.Flush.{Flushing, send_ack, empty_ack, send_nack, empty_nack}
use raknet_rs.Reliable.Layer.Step.{
  CanSend, Advances, Advances-refl, Run, Frameless, start_packet-Run,
}

pub All-append_right {ℓ κ} :
    {A : Type ℓ} (P : A → Type κ) (xs ys : List A) → All P (xs ++ ys) → All P ys
All-append_right P [] ys h = h
All-append_right P (x ∷ xs) ys h = All-append_right P xs ys h.1

-- The records can be counted.
abbrev Countable : Option AckOrNack → Type 0
Countable none = Unit
Countable (some records) = (n : ℕ) × (total_cnt records ≡ ok n)

-- What `extend_from` comes to in any queue.
extend-Shorter :
    (xs : List ℕ) (mtu : ℕ)
    → 7 ≤ mtu
    → All HasNext xs
    → (packet : Option AckOrNack) × (left : List ℕ) × (extend_from xs mtu ≡ ok (packet, left))
      × All HasNext left
      × (length left ≤ length xs - 1)
      × Countable packet
unfolding extend_from
extend-Shorter [] mtu h a = (none, [], rw (le→leb 7 mtu h) refl, tt, omega arith, tt)
extend-Shorter (x ∷ xs) mtu h a =
    let (records, left, e, kept, fits, forwards, taken) = extend_from_lossless x xs mtu h a in
    (
      some records,
      left,
      e,
      All-append_right HasNext (expand records) left (subst (All HasNext) (sym kept) a),
      omega (arith, taken),
      (total records, total_cnt-total records forwards),
    )

module _ {H F : Type 0} (heap : Heap H) (sink : PacketSink F) where
  -- One ack packet takes an ack off the queue at least.
  abbrev pub FewerAcks : FlushStrategy → ReliableLayer F H → ReliableLayer F H → Type 0
  FewerAcks strategy l l' =
      is_enabled strategy.ack_tag ≡ true
      → length l'.link.outgoing_ack ≤ length l.link.outgoing_ack - 1

  pub send_ack-Run :
      (l : ReliableLayer F H) (Q : ReliableLayer F H → Type 0) (packet : Option AckOrNack)
      (s : Flushing heap sink)
      → Frameless heap sink Q
      → Countable packet
      → Advances heap sink l s.layer
      → Q s.layer
      → Run heap sink l Q (send_ack heap sink packet s)
  unfolding send_ack
  send_ack-Run l Q none s free c a q = (_, refl, (a, q))
  send_ack-Run l Q (some records) s free (n, e) a q =
      rw e (start_packet-Run heap sink l Q _ (record s { ack_cnt = s.ack_cnt + n }) free a q)

  pub empty_ack-Run :
      (strategy : FlushStrategy) (s : Flushing heap sink)
      → CanSend heap sink s.layer
      → Run heap sink s.layer (FewerAcks strategy s.layer) (empty_ack heap sink strategy s)
  unfolding empty_ack process_outgoing_ack
  empty_ack-Run strategy s c = elim (Bool-cases (is_enabled strategy.ack_tag)) [
    | inr e ↦ rw e (_, refl, (Advances-refl heap sink s.layer c, λ t. absurd cc))
    | inl e ↦
        (let (packet, left, r, next, shorter, n) =
            extend-Shorter s.layer.link.outgoing_ack s.layer.peer.mtu c.mtu c.sound.acks in
          rw (e, r)
            (send_ack-Run s.layer (FewerAcks strategy s.layer) packet _ (λ l frame q. q) n
              (record {
                can_send = record {
                  sound = record {
                    tracked = c.sound.tracked;
                    stored = c.sound.stored;
                    fit = c.sound.fit;
                    acks = next;
                    nacks = c.sound.nacks;
                  };
                  mtu = c.mtu;
                  numbers = omega (arith, c.numbers, shorter);
                };
                acks = omega (arith, shorter);
                nacks = omega arith;
                unconnected = omega arith;
                frames = omega arith;
              })
              (λ t. shorter)))
  ]

  abbrev pub FewerNacks : FlushStrategy → ReliableLayer F H → ReliableLayer F H → Type 0
  FewerNacks strategy l l' =
      is_enabled strategy.nack_tag ≡ true
      → length l'.link.outgoing_nack ≤ length l.link.outgoing_nack - 1

  pub send_nack-Run :
      (l : ReliableLayer F H) (Q : ReliableLayer F H → Type 0) (packet : Option AckOrNack)
      (s : Flushing heap sink)
      → Frameless heap sink Q
      → Countable packet
      → Advances heap sink l s.layer
      → Q s.layer
      → Run heap sink l Q (send_nack heap sink packet s)
  unfolding send_nack
  send_nack-Run l Q none s free c a q = (_, refl, (a, q))
  send_nack-Run l Q (some records) s free (n, e) a q =
      rw e (start_packet-Run heap sink l Q _ (record s { nack_cnt = s.nack_cnt + n }) free a q)

  pub empty_nack-Run :
      (strategy : FlushStrategy) (s : Flushing heap sink)
      → CanSend heap sink s.layer
      → Run heap sink s.layer (FewerNacks strategy s.layer) (empty_nack heap sink strategy s)
  unfolding empty_nack process_outgoing_nack
  empty_nack-Run strategy s c = elim (Bool-cases (is_enabled strategy.nack_tag)) [
    | inr e ↦ rw e (_, refl, (Advances-refl heap sink s.layer c, λ t. absurd cc))
    | inl e ↦
        (let (packet, left, r, next, shorter, n) =
            extend-Shorter s.layer.link.outgoing_nack s.layer.peer.mtu c.mtu c.sound.nacks in
          rw (e, r)
            (send_nack-Run s.layer (FewerNacks strategy s.layer) packet _ (λ l frame q. q) n
              (record {
                can_send = record {
                  sound = record {
                    tracked = c.sound.tracked;
                    stored = c.sound.stored;
                    fit = c.sound.fit;
                    acks = c.sound.acks;
                    nacks = next;
                  };
                  mtu = c.mtu;
                  numbers = omega (arith, c.numbers, shorter);
                };
                acks = omega arith;
                nacks = omega (arith, shorter);
                unconnected = omega arith;
                frames = omega arith;
              })
              (λ t. shorter)))
  ]
