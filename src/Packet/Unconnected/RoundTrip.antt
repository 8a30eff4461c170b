-- ===== src/Packet/Unconnected/RoundTrip.antt =====
-- What `write` writes of an unconnected packet, the reader of its type reads back.
use mathlib.Core.List.{append_assoc}
use raknet_rs.Prelude.{
  ℕ, ◌%◌, ◌^◌, ◌<◌, ◌≡◌, refl, false, List, ◌++◌, length, length-append, take-append, drop-append,
  arith,
}
use raknet_rs.Prelude.Outcome.{ok}
use raknet_rs.Packet.Buf.{Buf, put_u8, put_u16}
use raknet_rs.Packet.Consumes.{require_then}
use raknet_rs.Packet.Addr.{magic, put_socket_addr}
use raknet_rs.Packet.Addr.Laws.{get_checked_magic-magic, AddrFits, get_socket_addr-put_socket_addr}
use raknet_rs.Packet.Unconnected.{
  Packet, unconnected_ping, unconnected_pong, open_connection_request1, open_connection_reply1,
  open_connection_request2, open_connection_reply2, incompatible_protocol, already_connected,
  connection_request_failed, pack_type, put_u64, read_unconnected_ping, read_unconnected_pong,
  read_open_connection_request1, read_open_connection_reply1, read_open_connection_request2,
  read_open_connection_reply2, read_incompatible_protocol, read_already_connected,
  read_connection_request_failed, write_fields, read,
}

-- A packet in the ranges of its fields.
abbrev pub IsValid : Packet → Type 0
IsValid (unconnected_ping t g) = (t < 2 ^ 64) × (g < 2 ^ 64)
IsValid (unconnected_pong t g content) = (t < 2 ^ 64) × (g < 2 ^ 64) × (length content < 2 ^ 16)
IsValid (open_connection_request1 v mtu) = (v < 2 ^ 8) × (mtu < 2 ^ 16)
IsValid (open_connection_reply1 g e mtu) = (g < 2 ^ 64) × (mtu < 2 ^ 16)
IsValid (open_connection_request2 a mtu g) = AddrFits a × (mtu < 2 ^ 16) × (g < 2 ^ 64)
IsValid (open_connection_reply2 g a mtu e) = (g < 2 ^ 64) × AddrFits a × (mtu < 2 ^ 16)
IsValid (incompatible_protocol p g) = (p < 2 ^ 8) × (g < 2 ^ 64)
IsValid (already_connected g) = g < 2 ^ 64
IsValid (connection_request_failed g) = g < 2 ^ 64

-- The packet without encryption, whose flag is never written.
abbrev pub unencrypted : Packet → Packet
unencrypted (open_connection_reply1 g e mtu) = open_connection_reply1 g false mtu
unencrypted (open_connection_reply2 g a mtu e) = open_connection_reply2 g a mtu false
unencrypted p = p

module _ ⦃b : Buf⦄ where
  -- The bytes behind the type of a packet read back, whatever follows.
  pub read-write_fields :
      (p : Packet) (rest : List ℕ)
      → IsValid p
      → read (pack_type p) (write_fields p ++ rest) ≡ ok (unencrypted p, rest)
  unfolding read write_fields read_unconnected_ping read_unconnected_pong
      read_open_connection_request1 read_open_connection_reply1 read_open_connection_request2
      read_open_connection_reply2 read_incompatible_protocol read_already_connected
      read_connection_request_failed
  read-write_fields (unconnected_ping t g) rest (h, k) = rw append_assoc (
      require_then 32 (put_u64 t ++ (magic ++ (put_u64 g ++ rest))) _ _
        (omega (arith, length-append {0}, b.length-put_uint))
        (rw (b.get_uint-put_uint 8 t _ h, get_checked_magic-magic, b.get_uint-put_uint 8 g _ k)
          refl))
  read-write_fields (unconnected_pong t g content) rest (h, k, l) =
      rw (append_assoc, append_assoc, append_assoc, append_assoc)
        (require_then 34
          (put_u64 t
            ++ (put_u64 g ++ (magic ++ (put_u16 (length content % 2 ^ 16) ++ (content ++ rest)))))
          _ _ (omega (arith, length-append {0}, b.length-put_uint))
          (rw
            (
              b.get_uint-put_uint 8 t _ h,
              b.get_uint-put_uint 8 g _ k,
              get_checked_magic-magic,
              small,
              b.get_uint-put_uint 2 (length content) _ l,
            )
            (require_then (length content) (content ++ rest) _ _ (omega (arith, length-append {0}))
              (rw
                (
                  b.split_to_enough (length content) (content ++ rest)
                      (omega (arith, length-append {0})),
                  take-append content rest,
                  drop-append content rest,
                )
                refl))))
    where
      small : length content % 2 ^ 16 ≡ length content
      small = omega arith
  read-write_fields (open_connection_request1 v mtu) rest (h, k) =
      rw (append_assoc, append_assoc)
        (require_then 19 (magic ++ (put_u8 v ++ (put_u16 mtu ++ rest))) _ _
          (omega (arith, length-append {0}, b.length-put_uint))
          (rw (get_checked_magic-magic, b.get_uint-put_uint 1 v _ h, b.get_uint-put_uint 2 mtu _ k)
            refl))
  read-write_fields (open_connection_reply1 g e mtu) rest (h, k) =
      rw (append_assoc, append_assoc, append_assoc)
        (require_then 27 (magic ++ (put_u64 g ++ (put_u8 0 ++ (put_u16 mtu ++ rest)))) _ _
          (omega (arith, length-append {0}, b.length-put_uint))
          (rw
            (
              get_checked_magic-magic,
              b.get_uint-put_uint 8 g _ h,
              b.get_uint-put_uint 1 0 _ (omega arith),
              b.get_uint-put_uint 2 mtu _ k,
            )
            refl))
  read-write_fields (open_connection_request2 a mtu g) rest (h, k, l) =
      rw (append_assoc, append_assoc, append_assoc)
        (require_then 16 (magic ++ (put_socket_addr a ++ (put_u16 mtu ++ (put_u64 g ++ rest)))) _ _
          (omega (arith, length-append {0}))
          (rw (get_checked_magic-magic, get_socket_addr-put_socket_addr a _ h)
            (require_then 2 (put_u16 mtu ++ (put_u64 g ++ rest)) _ _
              (omega (arith, length-append {0}, b.length-put_uint))
              (rw (b.get_uint-put_uint 2 mtu _ k) (
                require_then 8 (put_u64 g ++ rest) _ _
                  (omega (arith, length-append {0}, b.length-put_uint))
                  (rw (b.get_uint-put_uint 8 g _ l) refl))))))
  read-write_fields (open_connection_reply2 g a mtu e) rest (h, k, l) =
      rw (append_assoc, append_assoc, append_assoc, append_assoc)
        (require_then 16
          (magic ++ (put_u64 g ++ (put_socket_addr a ++ (put_u16 mtu ++ (put_u8 0 ++ rest))))) _ _
          (omega (arith, length-append {0}))
          (rw get_checked_magic-magic (
            require_then 8 (put_u64 g ++ (put_socket_addr a ++ (put_u16 mtu ++ (put_u8 0 ++ rest))))
              _ _ (omega (arith, length-append {0}, b.length-put_uint))
              (rw (b.get_uint-put_uint 8 g _ h, get_socket_addr-put_socket_addr a _ k)
                (require_then 2 (put_u16 mtu ++ (put_u8 0 ++ rest)) _ _
                  (omega (arith, length-append {0}, b.length-put_uint))
                  (rw (b.get_uint-put_uint 2 mtu _ l) (
                    require_then 1 (put_u8 0 ++ rest) _ _
                      (omega (arith, length-append {0}, b.length-put_uint))
                      (rw (b.get_uint-put_uint 1 0 _ (omega arith)) refl))))))))
  read-write_fields (incompatible_protocol p g) rest (h, k) = rw append_assoc (
      require_then 25 (put_u8 p ++ (magic ++ (put_u64 g ++ rest))) _ _
        (omega (arith, length-append {0}, b.length-put_uint))
        (rw (b.get_uint-put_uint 1 p _ h, get_checked_magic-magic, b.get_uint-put_uint 8 g _ k)
          refl))
  read-write_fields (already_connected g) rest h =
      require_then 24 (magic ++ (put_u64 g ++ rest)) _ _
        (omega (arith, length-append {0}, b.length-put_uint))
        (rw (get_checked_magic-magic, b.get_uint-put_uint 8 g _ h) refl)
  read-write_fields (connection_request_failed g) rest h =
      require_then 24 (magic ++ (put_u64 g ++ rest)) _ _
        (omega (arith, length-append {0}, b.length-put_uint))
        (rw (get_checked_magic-magic, b.get_uint-put_uint 8 g _ h) refl)
