-- ===== src/Packet/Addr/Laws.antt =====
-- The magic and the socket addresses: what is written reads back, and reading is safe.
use mathlib.Core.List.{append_assoc}
use raknet_rs.Prelude.{
  ℕ, ◌^◌, ◌<◌, ◌≡◌, refl, List, ◌++◌, length, length-append, ◌==◌, arith, Bool-cases, inl, inr,
}
use raknet_rs.Prelude.Outcome.{ok}
use raknet_rs.Packet.Buf.{Buf, put_u8, put_u16, put_u32}
use raknet_rs.Packet.Consumes.{Consumes, require-Consumes, require_then, next_uint}
use raknet_rs.Packet.Addr.{
  magic, check_magic, get_checked_magic, SocketAddr, v4, v6, get_v4, get_v6, get_socket_addr,
  put_socket_addr,
}

pub get_checked_magic-magic : (rest : List ℕ) → get_checked_magic (magic ++ rest) ≡ ok rest
unfolding get_checked_magic check_magic
get_checked_magic-magic rest = refl

-- An address in the ranges of its fields.
abbrev pub AddrFits : SocketAddr → Type 0
AddrFits (v4 ip port) = (ip < 2 ^ 32) × (port < 2 ^ 16)
AddrFits (v6 ip port flow_info scope) =
    (ip < 2 ^ 128) × (port < 2 ^ 16) × (flow_info < 2 ^ 32) × (scope < 2 ^ 32)

-- The bytes of an address.
abbrev pub addr_size : SocketAddr → ℕ
addr_size (v4 ip port) = 7
addr_size (v6 ip port flow_info scope) = 29

module _ ⦃b : Buf⦄ where
  pub length-put_socket_addr : (a : SocketAddr) → length (put_socket_addr a) ≡ addr_size a
  unfolding put_socket_addr
  length-put_socket_addr (v4 ip port) = omega (arith, length-append {0}, b.length-put_uint)
  length-put_socket_addr (v6 ip port flow_info scope) =
      omega (arith, length-append {0}, b.length-put_uint)

  pub get_socket_addr-put_socket_addr :
      (a : SocketAddr) (rest : List ℕ)
      → AddrFits a
      → get_socket_addr (put_socket_addr a ++ rest) ≡ ok (a, rest)
  unfolding get_socket_addr put_socket_addr get_v4 get_v6
  get_socket_addr-put_socket_addr (v4 ip port) rest (h, k) =
      rw (append_assoc, append_assoc)
        (require_then 1 (put_u8 4 ++ (put_u32 ip ++ (put_u16 port ++ rest))) _ _
          (omega (arith, length-append {0}, b.length-put_uint))
          (rw (b.get_uint-put_uint 1 4 _ (omega arith)) (
            require_then 6 (put_u32 ip ++ (put_u16 port ++ rest)) _ _
              (omega (arith, length-append {0}, b.length-put_uint))
              (rw (b.get_uint-put_uint 4 ip _ h, b.get_uint-put_uint 2 port _ k) refl))))
  get_socket_addr-put_socket_addr (v6 ip port flow_info scope) rest (h, k, l, m) =
      rw (append_assoc, append_assoc, append_assoc, append_assoc, append_assoc)
        (require_then 1
          (put_u8 6
            ++ (put_u16 0x17
                ++ (put_u16 port
                    ++ (put_u32 flow_info ++ (b.put_uint 16 ip ++ (put_u32 scope ++ rest))))))
          _ _ (omega (arith, length-append {0}, b.length-put_uint))
          (rw (b.get_uint-put_uint 1 6 _ (omega arith)) (
            require_then 28
              (put_u16 0x17
                ++ (put_u16 port
                    ++ (put_u32 flow_info ++ (b.put_uint 16 ip ++ (put_u32 scope ++ rest)))))
              _ _ (omega (arith, length-append {0}, b.length-put_uint))
              (rw
                (
                  b.get_uint-put_uint 2 0x17 _ (omega arith),
                  b.get_uint-put_uint 2 port _ k,
                  b.get_uint-put_uint 4 flow_info _ l,
                  b.get_uint-put_uint 16 ip _ h,
                  b.get_uint-put_uint 4 scope _ m,
                )
                refl))))

  get_v4-Consumes : (buf : List ℕ) → Consumes 0 buf (get_v4 buf)
  unfolding get_v4
  get_v4-Consumes buf = require-Consumes 6 0 buf _ (λ h.
      next_uint 4 buf _ (omega arith)
        (λ ip r₁ e₁. next_uint 2 r₁ _ (omega arith) (λ port r₂ e₂. omega arith)))

  get_v6-Consumes : (buf : List ℕ) → Consumes 0 buf (get_v6 buf)
  unfolding get_v6
  get_v6-Consumes buf = require-Consumes 28 0 buf _ (λ h.
      next_uint 2 buf _ (omega arith) (λ family r₁ e₁. elim (Bool-cases (family == 0x17)) [
        | inr z ↦ rw z tt
        | inl z ↦ rw z (
            next_uint 2 r₁ _ (omega arith) (λ port r₂ e₂.
              next_uint 4 r₂ _ (omega arith) (λ flow_info r₃ e₃.
                next_uint 16 r₃ _ (omega arith)
                  (λ ip r₄ e₄. next_uint 4 r₄ _ (omega arith) (λ scope r₅ e₅. omega arith)))))
      ]))

  -- An address is read off any bytes without a panic.
  pub get_socket_addr-Consumes : (buf : List ℕ) → Consumes 0 buf (get_socket_addr buf)
  unfolding get_socket_addr
  get_socket_addr-Consumes buf = require-Consumes 1 0 buf _ (λ h.
      next_uint 1 buf _ (omega arith) (λ ver r e. elim (Bool-cases (ver == 4)) [
        | inl z ↦ rw z (get_v4-Consumes r)
        | inr z ↦
            rw z
              (elim (Bool-cases (ver == 6)) [ inl y ↦ rw y (get_v6-Consumes r) | inr y ↦ rw y tt ])
      ]))
