-- ===== src/Packet/Unconnected/Safety.antt =====
-- Reading an unconnected packet panics on no bytes.
use raknet_rs.Prelude.{
  ℕ, ◌+◌, ◌≤◌, ◌≡◌, List, [], ◌∷◌, length, length-drop, drop, ◌==◌, arith, Bool-cases, inl, inr,
}
use raknet_rs.Prelude.Outcome.{Outcome, ok, err, panic, stuck, ◌>>=◌}
use raknet_rs.Packet.Buf.{Buf}
use raknet_rs.Packet.Consumes.{
  Consumes, Consumes-bind, Consumes-weaken, require-Consumes, next_uint, next_bytes,
}
use raknet_rs.Packet.Addr.{magic, check_magic, get_checked_magic}
use raknet_rs.Packet.Addr.Laws.{get_socket_addr-Consumes}
use raknet_rs.Packet.PackType.{PackType}
use raknet_rs.Packet.Unconnected.{
  read_unconnected_ping, read_unconnected_pong, read_open_connection_request1,
  read_open_connection_reply1, read_open_connection_request2, read_open_connection_reply2,
  read_incompatible_protocol, read_already_connected, read_connection_request_failed, read,
}

-- The check does not panic where the bytes are there.
abbrev Checked : Outcome (Unit {0}) → Type 0
Checked (ok u) = Unit
Checked (err e) = Unit
Checked panic = ⊥
Checked stuck = ⊥

check_magic-Checked :
    (i : ℕ) (ms buf : List ℕ) → length ms ≤ length buf → Checked (check_magic i ms buf)
unfolding check_magic
check_magic-Checked i [] buf h = tt
check_magic-Checked i (m ∷ ms) [] h = omega arith
check_magic-Checked i (m ∷ ms) (x ∷ buf) h = elim (Bool-cases (x == m)) [
  | inl e ↦ rw e (check_magic-Checked (i + 1) ms buf (omega arith))
  | inr e ↦ rw e tt
]

-- Behind the magic, 16 bytes are gone.
next_magic {ℓ} :
    {A : Type ℓ} (buf : List ℕ) (f : List ℕ → Outcome (A × List ℕ))
    → 16 ≤ length buf
    → ((rest : List ℕ) → length rest + 16 ≡ length buf → Consumes 0 rest (f rest))
    → Consumes 0 buf (get_checked_magic buf >>= f)
unfolding get_checked_magic
next_magic buf f h next = go (check_magic 0 magic buf) (check_magic-Checked 0 magic buf h)
  where
    go : (r : Outcome (Unit {0})) → Checked r → Consumes 0 buf ((r >>= λ u. ok (drop 16 buf)) >>= f)
    go (ok u) c =
        Consumes-weaken 0 0 0 buf (drop 16 buf) (f (drop 16 buf))
          (omega (arith, length-drop 16 buf)) (omega arith)
          (next (drop 16 buf) (omega (arith, length-drop 16 buf)))
    go (err e) c = tt
    go panic c = c
    go stuck c = c

module _ ⦃b : Buf⦄ where
  ping-Consumes : (buf : List ℕ) → 32 ≤ length buf → Consumes 0 buf (read_unconnected_ping buf)
  unfolding read_unconnected_ping
  ping-Consumes buf h = next_uint 8 buf _ (omega arith) (λ t r₁ e₁.
      next_magic r₁ _ (omega arith)
        (λ r₂ e₂. next_uint 8 r₂ _ (omega arith) (λ g r₃ e₃. omega arith)))

  pong-Consumes : (buf : List ℕ) → 34 ≤ length buf → Consumes 0 buf (read_unconnected_pong buf)
  unfolding read_unconnected_pong
  pong-Consumes buf h = next_uint 8 buf _ (omega arith) (λ t r₁ e₁.
      next_uint 8 r₁ _ (omega arith) (λ g r₂ e₂. next_magic r₂ _ (omega arith) (λ r₃ e₃.
        next_uint 2 r₃ _ (omega arith) (λ len r₄ e₄.
          require-Consumes len 0 r₄ _
            (λ k. next_bytes len r₄ _ k (λ content r₅ e₅. omega arith))))))

  request1-Consumes :
      (buf : List ℕ) → 19 ≤ length buf → Consumes 0 buf (read_open_connection_request1 buf)
  unfolding read_open_connection_request1
  request1-Consumes buf h = next_magic buf _ (omega arith) (λ r₁ e₁.
      next_uint 1 r₁ _ (omega arith)
        (λ v r₂ e₂. next_uint 2 r₂ _ (omega arith) (λ mtu r₃ e₃. omega arith)))

  reply1-Consumes :
      (buf : List ℕ) → 27 ≤ length buf → Consumes 0 buf (read_open_connection_reply1 buf)
  unfolding read_open_connection_reply1
  reply1-Consumes buf h = next_magic buf _ (omega arith) (λ r₁ e₁.
      next_uint 8 r₁ _ (omega arith) (λ g r₂ e₂.
        next_uint 1 r₂ _ (omega arith)
          (λ e r₃ e₃. next_uint 2 r₃ _ (omega arith) (λ mtu r₄ e₄. omega arith))))

  request2-Consumes : (buf : List ℕ) → Consumes 0 buf (read_open_connection_request2 buf)
  unfolding read_open_connection_request2
  request2-Consumes buf = require-Consumes 16 0 buf _ (λ h. next_magic buf _ h (λ r₁ e₁.
      Consumes-bind 0 0 0 r₁ _ _ (omega arith) (get_socket_addr-Consumes r₁) (λ a r₂.
        require-Consumes 2 0 r₂ _ (λ h₂. next_uint 2 r₂ _ h₂ (λ mtu r₃ e₃.
          require-Consumes 8 0 r₃ _ (λ h₃. next_uint 8 r₃ _ h₃ (λ g r₄ e₄. omega arith)))))))

  reply2-Consumes : (buf : List ℕ) → Consumes 0 buf (read_open_connection_reply2 buf)
  unfolding read_open_connection_reply2
  reply2-Consumes buf = require-Consumes 16 0 buf _ (λ h. next_magic buf _ h (λ r₁ e₁.
      require-Consumes 8 0 r₁ _ (λ h₁. next_uint 8 r₁ _ h₁ (λ g r₂ e₂.
        Consumes-bind 0 0 0 r₂ _ _ (omega arith) (get_socket_addr-Consumes r₂) (λ a r₃.
          require-Consumes 2 0 r₃ _ (λ h₃. next_uint 2 r₃ _ h₃ (λ mtu r₄ e₄.
            require-Consumes 1 0 r₄ _ (λ h₄. next_uint 1 r₄ _ h₄ (λ e r₅ e₅. omega arith)))))))))

  incompatible-Consumes :
      (buf : List ℕ) → 25 ≤ length buf → Consumes 0 buf (read_incompatible_protocol buf)
  unfolding read_incompatible_protocol
  incompatible-Consumes buf h = next_uint 1 buf _ (omega arith) (λ p r₁ e₁.
      next_magic r₁ _ (omega arith)
        (λ r₂ e₂. next_uint 8 r₂ _ (omega arith) (λ g r₃ e₃. omega arith)))

  already-Consumes : (buf : List ℕ) → 24 ≤ length buf → Consumes 0 buf (read_already_connected buf)
  unfolding read_already_connected
  already-Consumes buf h =
      next_magic buf _ (omega arith)
        (λ r₁ e₁. next_uint 8 r₁ _ (omega arith) (λ g r₂ e₂. omega arith))

  failed-Consumes :
      (buf : List ℕ) → 24 ≤ length buf → Consumes 0 buf (read_connection_request_failed buf)
  unfolding read_connection_request_failed
  failed-Consumes buf h =
      next_magic buf _ (omega arith)
        (λ r₁ e₁. next_uint 8 r₁ _ (omega arith) (λ g r₂ e₂. omega arith))

  pub read-Consumes : (t : PackType) (buf : List ℕ) → Consumes 0 buf (read t buf)
  unfolding read
  read-Consumes PackType.unconnected_ping1 buf = require-Consumes 32 0 buf _ (ping-Consumes buf)
  read-Consumes PackType.unconnected_ping2 buf = require-Consumes 32 0 buf _ (ping-Consumes buf)
  read-Consumes PackType.unconnected_pong buf = require-Consumes 34 0 buf _ (pong-Consumes buf)
  read-Consumes PackType.open_connection_request1 buf =
      require-Consumes 19 0 buf _ (request1-Consumes buf)
  read-Consumes PackType.open_connection_reply1 buf =
      require-Consumes 27 0 buf _ (reply1-Consumes buf)
  read-Consumes PackType.incompatible_protocol_version buf =
      require-Consumes 25 0 buf _ (incompatible-Consumes buf)
  read-Consumes PackType.already_connected buf = require-Consumes 24 0 buf _ (already-Consumes buf)
  read-Consumes PackType.connection_request_failed buf =
      require-Consumes 24 0 buf _ (failed-Consumes buf)
  read-Consumes PackType.open_connection_request2 buf = request2-Consumes buf
  read-Consumes PackType.open_connection_reply2 buf = reply2-Consumes buf
  read-Consumes t buf = tt
