-- ===== src/Packet/Addr.antt =====
-- The magic and the socket addresses of src/packet/mod.rs. An IP address is the number that its octets
-- make up, the first the highest.
pub mod Laws
pub mod Eq
use raknet_rs.Prelude.{ℕ, ◌+◌, List, [], ◌∷◌, ◌++◌, if◌then◌else◌, drop, ◌==◌}
use raknet_rs.Prelude.Outcome.{
  invalid_ipv6_family, invalid_ip_ver, magic_not_matched, Outcome, ok, err, panic, ◌>>=◌, ◌>>◌,
  guard,
}
use raknet_rs.Packet.Buf.{Buf, get_u8, get_u16, get_u32, put_u8, put_u16, put_u32, require}

-- `MAGIC`
abbrev pub magic : List ℕ
magic =
    0x00 ∷ 0xff ∷ 0xff ∷ 0x00 ∷ 0xfe ∷ 0xfe ∷ 0xfe ∷ 0xfe ∷ 0xfd ∷ 0xfd ∷ 0xfd ∷ 0xfd ∷ 0x12 ∷ 0x34
    ∷ 0x56 ∷ 0x78 ∷ []

-- The loop of `get_checked_magic`, from place `i` on; an index beyond the bytes panics.
unfoldable pub check_magic : ℕ → List ℕ → List ℕ → Outcome (Unit {0})
check_magic i [] buf = ok tt
check_magic i (m ∷ ms) [] = panic
check_magic i (m ∷ ms) (x ∷ buf) =
    let rest = check_magic (i + 1) ms buf in if x == m then rest else err (magic_not_matched i x)

-- `get_checked_magic`: what is left of the bytes.
unfoldable pub get_checked_magic : List ℕ → Outcome (List ℕ)
unfolding check_magic
get_checked_magic buf = do check_magic 0 magic buf; ok (drop 16 buf)

-- `std::net::SocketAddr`: the address and the port, and for version 6 the flow information and the scope.
pub data SocketAddr : Type 0 where
  v4 : ℕ → ℕ → SocketAddr
  v6 : ℕ → ℕ → ℕ → ℕ → SocketAddr

module _ ⦃b : Buf⦄ where
  unfoldable pub get_v4 : List ℕ → Outcome (SocketAddr × List ℕ)
  get_v4 buf = do
    require 6 buf
    (ip, buf₁) ← get_u32 buf
    (port, buf₂) ← get_u16 buf₁
    ok (v4 ip port, buf₂)

  unfoldable pub get_v6 : List ℕ → Outcome (SocketAddr × List ℕ)
  get_v6 buf = do
    require 28 buf
    (family, buf₁) ← get_u16 buf
    guard (family == 0x17) (invalid_ipv6_family family)
    (port, buf₂) ← get_u16 buf₁
    (flow_info, buf₃) ← get_u32 buf₂
    (ip, buf₄) ← b.get_uint 16 buf₃
    (scope, buf₅) ← get_u32 buf₄
    ok (v6 ip port flow_info scope, buf₅)

  -- `get_socket_addr`
  unfoldable pub get_socket_addr : List ℕ → Outcome (SocketAddr × List ℕ)
  get_socket_addr buf = do
    require 1 buf
    (ver, buf₁) ← get_u8 buf
    if ver == 4 then get_v4 buf₁ else (if ver == 6 then get_v6 buf₁ else err (invalid_ip_ver ver))

  -- `put_socket_addr`
  unfoldable pub put_socket_addr : SocketAddr → List ℕ
  put_socket_addr (v4 ip port) = put_u8 4 ++ (put_u32 ip ++ put_u16 port)
  put_socket_addr (v6 ip port flow_info scope) =
      put_u8 6
      ++ (put_u16 0x17
          ++ (put_u16 port ++ (put_u32 flow_info ++ (b.put_uint 16 ip ++ put_u32 scope))))
