-- ===== src/Codec/Framed.antt =====
-- `Framed` of src/codec/frame.rs: packets over a socket. What the socket receives is a list of events, whose
-- end is waiting; how it sends is a parameter. The mtu, which is a capacity, and the spans are left out.
pub mod Packets
use raknet_rs.Prelude.{
  ℕ, ◌≡◌, Bool, true, false, List, [], ◌∷◌, ◌++◌, if◌then◌else◌, Option, none, some, ◌==◌, length,
}
use raknet_rs.Prelude.Outcome.{Outcome, ok, err, panic, stuck, ◌>>=◌}
use raknet_rs.State.{Poll, pending, done, failed}
use raknet_rs.Packet.Buf.{Buf}
use raknet_rs.Packet.Addr.{SocketAddr, v4}
use raknet_rs.Packet.Dispatch
use raknet_rs.Packet.Dispatch.{Packet}

-- `Poll<io::Result<SocketAddr>>` when it is ready.
pub data Event : Type 0 where
  received : List ℕ → SocketAddr → Event
  failure : Event

-- `Poll<io::Result<usize>>`
pub data Sending : Type 0 where
  waiting : Sending
  sent : ℕ → Sending
  refused : Sending

pub record Framed (S : Type 0) : Type 0 where
  pub socket : S
  pub rd : List ℕ
  pub wr : List ℕ
  pub out_addr : SocketAddr
  pub flushed : Bool
  pub is_readable : Bool
  pub current_addr : Option SocketAddr

abbrev pub new : {S : Type 0} → S → Framed S
new socket = record {
  socket = socket;
  rd = [];
  wr = [];
  out_addr = v4 0 0;
  flushed = true;
  is_readable = false;
  current_addr = none;
}

-- `expect`
abbrev pub expect {ℓ} : {A : Type ℓ} → Option A → Outcome A
expect none = panic
expect (some x) = ok x

module _ ⦃b : Buf⦄ {S : Type 0} where
  abbrev pub cleared : Framed S → Framed S
  cleared f = record f { rd = []; is_readable = false }

  -- The arms of `match Packet::read(&mut pin.rd)`. An error goes to a log.
  unfoldable pub decoded :
      Framed S → Outcome (Packet × List ℕ) → Outcome (Option (Packet × SocketAddr) × Framed S)
  decoded f (ok (packet, rest)) = do
    addr ← expect f.current_addr
    ok (some (packet, addr), cleared f)
  decoded f (err e) = ok (none, cleared f)
  decoded f panic = panic
  decoded f stuck = stuck

  -- Are there bytes left to decode?
  unfoldable pub decode : Framed S → Outcome (Option (Packet × SocketAddr) × Framed S)
  decode f = if f.is_readable then decoded f (Dispatch.read f.rd) else ok (none, f)

  -- `poll_recv_from` adds to the buffer.
  unfoldable pub receive : Event → Framed S → Framed S
  receive (received bytes addr) f = record f {
    rd = f.rd ++ bytes;
    current_addr = some addr;
    is_readable = true;
  }
  receive failure f = record f { rd = [] }

  -- `poll_next`: its item, if it does not wait, and what the socket has not given yet.
  unfoldable pub poll_next :
      List Event → Framed S → Outcome (Option (Packet × SocketAddr) × Framed S × List Event)
  poll_next [] f = do (item, f') ← decode f; ok (item, f', [])
  poll_next (event ∷ events) f =
      let more = λ (f' : Framed S). poll_next events (receive event f') in
      decode f >>= λ x. elim x.0 [
        | some item ↦ ok (some item, x.1, event ∷ events)
        | none ↦ more x.1
      ]

  abbrev with_socket : Framed S → S → Framed S
  with_socket f socket = record f { socket = socket }

  abbrev pub wrote : Framed S → Sending × S → Poll × Framed S
  wrote f (waiting, socket) = (pending, with_socket f socket)
  wrote f (refused, socket) = (failed, with_socket f socket)
  wrote f (sent n, socket) = (
    if n == length f.wr then done else failed,
    record f { socket = socket; wr = []; flushed = true },
  )

  module _ (poll_send_to : List ℕ → SocketAddr → S → Sending × S) where
    -- `poll_flush_0`, which is `poll_ready`, `poll_flush` and `poll_close` too.
    unfoldable pub poll_flush_0 : Framed S → Poll × Framed S
    poll_flush_0 f =
        if f.flushed then (done, f) else wrote f (poll_send_to f.wr f.out_addr f.socket)

  -- `start_send` of a packet of either kind.
  unfoldable pub start_send : Packet → SocketAddr → Framed S → Outcome (Framed S)
  start_send packet out_addr f = do
    bytes ← Dispatch.write packet
    ok (record f { wr = f.wr ++ bytes; out_addr = out_addr; flushed = false })
