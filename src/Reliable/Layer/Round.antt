-- ===== src/Reliable/Layer/Round.antt =====
-- A round of the loop of `try_empty` does not panic, keeps the layer sound, and sends something.
use raknet_rs.Prelude.{ℕ, ◌≡◌, refl, true, arith, Bool-cases, inl, inr}
use raknet_rs.Flush.{FlushStrategy, is_enabled}
use raknet_rs.Reliable.{Heap}
use raknet_rs.Reliable.Layer.{PacketSink, ReliableLayer}
use raknet_rs.Reliable.Layer.Flush.{Flushing, empty_packs, round}
use raknet_rs.Reliable.Layer.Step.{
  CanSend, Advances-refl, Run, and_then-Run, Run-map, Anything, await-Run,
}
use raknet_rs.Reliable.Layer.Acks.{FewerAcks, FewerNacks, empty_ack-Run, empty_nack-Run}
use raknet_rs.Reliable.Layer.Frames.{
  FewerUnconnected, FewerFrames, empty_unconnected-Run, empty_frames-Run,
}

module _ {H F : Type 0} (heap : Heap H) (sink : PacketSink F) where
  -- A round that goes on has sent something of each kind that is to be flushed, if there was any.
  pub record Progress (strategy : FlushStrategy) (l l' : ReliableLayer F H) : Type 0 where
    pub acks : FewerAcks heap sink strategy l l'
    pub nacks : FewerNacks heap sink strategy l l'
    pub unconnected : is_enabled strategy.pack_tag ≡ true → FewerUnconnected heap sink l l'
    pub frames : is_enabled strategy.pack_tag ≡ true → FewerFrames heap sink l l'

  abbrev FewerPacks : FlushStrategy → ReliableLayer F H → ReliableLayer F H → Type 0
  FewerPacks strategy l l' =
      (is_enabled strategy.pack_tag ≡ true → FewerUnconnected heap sink l l')
      × (is_enabled strategy.pack_tag ≡ true → FewerFrames heap sink l l')

  empty_packs-Run :
      (strategy : FlushStrategy) (at : ℕ → ℕ) (s : Flushing heap sink)
      → CanSend heap sink s.layer
      → Run heap sink s.layer (FewerPacks strategy s.layer) (empty_packs heap sink strategy at s)
  unfolding empty_packs
  empty_packs-Run strategy at s c = elim (Bool-cases (is_enabled strategy.pack_tag)) [
    | inr e ↦ rw e (_, refl, (Advances-refl heap sink s.layer c, (λ t. absurd cc, λ t. absurd cc)))
    | inl e ↦
        (let R = FewerPacks strategy s.layer in
          rw e (
            and_then-Run heap sink s.layer (Anything heap sink) R _ _ (await-Run heap sink s c)
              (λ s₁ a₁ q₁.
                and_then-Run heap sink s₁.layer (FewerUnconnected heap sink s₁.layer) R _ _
                  (empty_unconnected-Run heap sink s₁ a₁.can_send)
                  (λ s₂ a₂ q₂.
                    and_then-Run heap sink s₂.layer (Anything heap sink) R _ _
                      (await-Run heap sink s₂ a₂.can_send)
                      (λ s₃ a₃ q₃.
                        Run-map heap sink s₃.layer (FewerFrames heap sink s₃.layer) R _
                          (λ l' a₄ q₄. (
                            λ t. omega (arith, a₁.unconnected, q₂, a₃.unconnected, a₄.unconnected),
                            λ t. omega (arith, a₁.frames, a₂.frames, a₃.frames, q₄),
                          ))
                          (empty_frames-Run heap sink at s₃ a₃.can_send))))))
  ]

  -- A round does not panic. It goes on with less to send, or leaves the function for the frame below.
  pub round-Run :
      (strategy : FlushStrategy) (at : ℕ → ℕ) (s : Flushing heap sink)
      → CanSend heap sink s.layer
      → Run heap sink s.layer (Progress strategy s.layer) (round heap sink strategy at s)
  unfolding round
  round-Run strategy at s c =
      let R = Progress strategy s.layer in
      and_then-Run heap sink s.layer (Anything heap sink) R _ _ (await-Run heap sink s c)
        (λ s₁ a₁ q₁.
          and_then-Run heap sink s₁.layer (FewerAcks heap sink strategy s₁.layer) R _ _
            (empty_ack-Run heap sink strategy s₁ a₁.can_send)
            (λ s₂ a₂ q₂.
              and_then-Run heap sink s₂.layer (Anything heap sink) R _ _
                (await-Run heap sink s₂ a₂.can_send)
                (λ s₃ a₃ q₃.
                  and_then-Run heap sink s₃.layer (FewerNacks heap sink strategy s₃.layer) R _ _
                    (empty_nack-Run heap sink strategy s₃ a₃.can_send)
                    (λ s₄ a₄ q₄.
                      Run-map heap sink s₄.layer (FewerPacks strategy s₄.layer) R _
                        (λ l' a₅ q₅. record {
                          acks = λ t. omega (arith, a₁.acks, q₂ t, a₃.acks, a₄.acks, a₅.acks);
                          nacks = λ t. omega (arith, a₁.nacks, a₂.nacks, a₃.nacks, q₄ t, a₅.nacks);
                          unconnected = λ t. omega (
                            arith,
                            a₁.unconnected,
                            a₂.unconnected,
                            a₃.unconnected,
                            a₄.unconnected,
                            q₅.0 t,
                          );
                          frames = λ t.
                              omega (arith, a₁.frames, a₂.frames, a₃.frames, a₄.frames, q₅.1 t);
                        })
                        (empty_packs-Run strategy at s₄ a₄.can_send)))))
