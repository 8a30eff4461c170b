-- ===== src/Examples/Datagrams.antt =====
-- Datagrams and frame bodies on concrete bytes.
use raknet_rs.Prelude.{
  none, some, ℕ, zero, suc, ◌≡◌, refl, sym, false, List, [], ◌∷◌, ◌++◌, All, replicate, arith,
}
use raknet_rs.Prelude.Outcome.{ok, panic}
use raknet_rs.Packet.Buf.{get_u8}
use raknet_rs.Packet.Consumes.{Safe}
use raknet_rs.Packet.Addr.{v4, v6, put_socket_addr}
use raknet_rs.Packet.Addr.Laws.{AddrFits}
use raknet_rs.Packet.PackType
use raknet_rs.Packet.PackType.{to_u8, from_u8}
use raknet_rs.Packet.Unconnected
use raknet_rs.Packet.Dispatch
use raknet_rs.Packet.Dispatch.{unconnected}
use raknet_rs.Packet.Dispatch.Laws.{acknowledgement, read-write, read-Safe}
use raknet_rs.Packet.Body
use raknet_rs.Packet.Body.{connection_request_accepted, put_addresses}
use raknet_rs.Packet.Body.RoundTrip.{read-write_body}
use raknet_rs.Packet.Body.Overlong.{read-overlong}
use raknet_rs.Packet.Reliability.{reliable}
use raknet_rs.Packet.Frame.{Frame, FrameSet, new_flags}
use raknet_rs.Codec.Fragment.{Message}
use raknet_rs.Codec.Body.{encode, decode, decode-encode}
use raknet_rs.Examples.Bytes.{bytes}

abbrev request : Dispatch.Packet
request = unconnected (Unconnected.open_connection_request2 (v6 1 19132 0 7) 1400 99)

read-write_example :
    (bytes : List ℕ) × (Dispatch.write request ≡ ok bytes)
    × (Dispatch.read bytes ≡ ok (request, []))
read-write_example =
    read-write request
      ((omega arith, omega arith, omega arith, omega arith), omega arith, omega arith)

-- A frame set that ends behind its sequence number.
abbrev cut_short : List ℕ
cut_short = 0x84 ∷ 1 ∷ 0 ∷ 0 ∷ []

frame_set_first :
    (id : ℕ) (rest : List ℕ)
    → get_u8 cut_short ≡ ok (id, rest)
    → acknowledgement (from_u8 id) ≡ false
unfolding from_u8
frame_set_first id rest e = rw (sym k) refl
  where
    k : 0x84 ≡ id
    k = cc e

read-Safe_example : Safe (Dispatch.read cut_short)
read-Safe_example = read-Safe cut_short frame_set_first

addrs_fit : (n : ℕ) → All AddrFits (replicate n (v4 0 0))
addrs_fit zero = tt
addrs_fit (suc n) = ((omega arith, omega arith), addrs_fit n)

abbrev accepted : Body.FrameBody
accepted = connection_request_accepted (v4 0x7f000001 19132) 0 (replicate 20 (v4 0 0)) 5 6

read-write_body_example : Body.read (Body.write accepted) ≡ ok accepted
read-write_body_example =
    read-write_body accepted
      ((omega arith, omega arith), omega arith, refl, addrs_fit 20, omega arith, omega arith)

read-overlong_example :
    Body.read (
      to_u8 PackType.new_incoming_connection
      ∷ (put_socket_addr (v4 0 0) ++ (put_addresses (replicate 20 (v4 0 0)) ++ replicate 17 0)))
    ≡ panic
read-overlong_example =
    read-overlong (v4 0 0) (replicate 20 (v4 0 0)) (replicate 17 0) (omega arith, omega arith) refl
      (addrs_fit 20) (omega arith)

abbrev any_frame : FrameSet Frame
unfolding new_flags
any_frame = record {
  seq_num = 3;
  set = record {
    flags = new_flags reliable false;
    reliable_frame_index = some 1;
    seq_frame_index = none;
    ordered = none;
    fragment = none;
    body = [];
  };
}

decode-encode_example :
    (msg : Message) × (encode accepted ≡ ok msg)
    × (decode (record any_frame { set = record any_frame.set { body = msg.content } })
        ≡ ok accepted)
decode-encode_example =
    decode-encode accepted any_frame
      ((omega arith, omega arith), omega arith, refl, addrs_fit 20, omega arith, omega arith) tt
