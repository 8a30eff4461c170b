-- ===== src/Handshake/Server.antt =====
-- `OfflineHandler` of src/server/handler/offline.rs: a client that sends both open connection requests
-- is a peer. The span and the role, which are for logs only, are left out; a packet that is logged and
-- ignored changes nothing.
pub mod Invariant
pub mod History
use raknet_rs.Prelude.{
  ℕ, zero, suc, ◌≡◌, Bool, true, false, ◌||◌, List, [], ◌∷◌, if◌then◌else◌, Option, none, some, ltb,
  leb, ◌==◌, ◌⊎◌, inl, inr, min, max,
}
use raknet_rs.Prelude.Outcome.{Outcome, ok, err, panic, stuck, ◌>>=◌, ◌>>◌, assert}
use raknet_rs.State.{Poll}
use raknet_rs.Packet.Buf.{is_some}
use raknet_rs.Packet.Addr.{SocketAddr}
use raknet_rs.Packet.Addr.Eq.{Map, insert, remove}
use raknet_rs.Packet.Unconnected
use raknet_rs.Packet.Connected
use raknet_rs.Packet.Dispatch.{Packet, unconnected, connected}
use raknet_rs.Prelude.Lru.{Lru}
use raknet_rs.Handshake.Transport.{Transport, Received, nothing_yet, closed, datagram}

-- `Peer` of src/lib.rs.
pub record Peer : Type 0 where
  pub guid : ℕ
  pub addr : SocketAddr
  pub mtu : ℕ

pub record Config : Type 0 where
  pub sever_guid : ℕ
  pub advertisement : List ℕ
  pub min_mtu : ℕ
  pub max_mtu : ℕ
  pub support_version : List ℕ
  pub max_pending : ℕ

-- `Vec::last().unwrap()`
abbrev pub last : List ℕ → Outcome ℕ
last [] = panic
last (x ∷ []) = ok x
last (x ∷ y ∷ xs) = last (y ∷ xs)

-- `binary_search(..).is_ok()`, in versions that are sorted.
abbrev pub supports : ℕ → List ℕ → Bool
supports v [] = false
supports v (x ∷ xs) = (v == x) || supports v xs

-- `Ord::clamp`, which panics on bounds that are the wrong way round.
abbrev pub clamp : ℕ → ℕ → ℕ → Outcome ℕ
clamp x lo hi = do assert (leb lo hi); ok (if ltb x lo then lo else (if ltb hi x then hi else x))

abbrev pub make_incompatible_version : Config → Outcome Unconnected.Packet
make_incompatible_version c = do
  version ← last c.support_version
  ok (Unconnected.incompatible_protocol version c.sever_guid)

abbrev pub make_already_connected : Config → Unconnected.Packet
make_already_connected c = Unconnected.already_connected c.sever_guid

abbrev pub make_connection_request_failed : Config → Unconnected.Packet
make_connection_request_failed c = Unconnected.connection_request_failed c.sever_guid

-- What comes of a packet: it is handed up, or answered, or ignored.
pub data Reaction : Type 0 where
  deliver : Connected.Packet → Peer → Reaction
  respond : Unconnected.Packet → Reaction
  ignore : Reaction

pub data OfflineState : Type 0 where
  listening : OfflineState
  sending_prepare : Option (Unconnected.Packet × SocketAddr) → OfflineState
  sending_flush : OfflineState

-- What a round of `poll_next` returns, `Poll<Option<Item>>`, or that the loop goes on.
pub data Control : Type 0 where
  again : Control
  wait : Control
  ended : Control
  yield : Connected.Packet → Peer → Control

module _ ⦃l : Lru SocketAddr ℕ⦄ where
  pub record Tables : Type 0 where
    pub pending : l.Cache
    pub connected : Map Peer

  -- What `poll_next` does with a datagram that it has received.
  unfoldable pub handle : Config → Packet → SocketAddr → Tables → Outcome (Reaction × Tables)
  handle c (connected pack) addr t = ok (elim (t.connected addr) [
    | some peer ↦ (deliver pack peer, t)
    | none ↦ (respond (make_connection_request_failed c), t)
  ])
  handle c (unconnected (Unconnected.unconnected_ping send_timestamp guid)) addr t =
      ok (respond (Unconnected.unconnected_pong send_timestamp c.sever_guid c.advertisement), t)
  handle c (unconnected (Unconnected.open_connection_request1 protocol_version mtu)) addr t =
      if supports protocol_version c.support_version
      then (do
        final_mtu ← clamp mtu c.min_mtu c.max_mtu
        ok (
          respond (Unconnected.open_connection_reply1 c.sever_guid false final_mtu),
          record t { pending = (l.put addr protocol_version t.pending).1 },
        ))
      else (do pack ← make_incompatible_version c; ok (respond pack, t))
  handle c (unconnected (Unconnected.open_connection_request2 server_address mtu guid)) addr t =
      let (popped, left) = l.pop addr t.pending in
      let t' = record t { pending = left } in
      if is_some popped
      then (if (ltb mtu c.min_mtu || ltb c.max_mtu mtu) || is_some (t.connected addr)
          then ok (respond (make_already_connected c), t')
          else ok (
            respond (Unconnected.open_connection_reply2 c.sever_guid addr mtu false),
            record t' {
              connected = insert addr (record { guid = guid; addr = addr; mtu = mtu }) t.connected;
            },
          ))
      else (do pack ← make_incompatible_version c; ok (respond pack, t'))
  handle c (unconnected pack) addr t = ok (ignore, t)

  pub record Handler (F : Type 0) : Type 0 where
    pub frame : F
    pub config : Config
    pub tables : Tables
    pub state : OfflineState

  -- `new`
  unfoldable pub new : {F : Type 0} → F → Config → Outcome (Handler F)
  new frame config = do
    assert (ltb 0 config.max_pending)
    ok (record {
      frame = frame;
      config = config;
      tables = record { pending = l.new config.max_pending; connected = λ a. none };
      state = listening;
    })

  -- `disconnect`
  unfoldable pub disconnect : {F : Type 0} → SocketAddr → Handler F → Handler F
  disconnect addr h = record h {
    tables = record {
      pending = (l.pop addr h.tables.pending).1;
      connected = remove addr h.tables.connected;
    };
  }

  -- The state after a reaction, and what the round comes to.
  abbrev pub react : {F : Type 0} → Reaction → SocketAddr → Handler F → Control × Handler F
  react (deliver pack peer) addr h = (yield pack peer, h)
  react (respond pack) addr h = (again, record h { state = sending_prepare (some (pack, addr)) })
  react ignore addr h = (again, h)

  module _ {F : Type 0} (io : Transport F) where
    -- `Listening`, with what the frame has answered: the next datagram.
    unfoldable pub listen : Handler F → Received × F → Outcome (Control × Handler F)
    listen h (nothing_yet, frame) = ok (wait, record h { frame = frame })
    listen h (closed, frame) = ok (ended, record h { frame = frame })
    listen h (datagram packet addr, frame) = do
      (reaction, tables) ← handle h.config packet addr h.tables
      ok (react reaction addr (record h { frame = frame; tables = tables }))

    abbrev pub sent : Handler F → Bool × F → Control × Handler F
    sent h (true, frame) = (again, record h { frame = frame; state = sending_flush })
    sent h (false, frame) = (again, record h { frame = frame; state = listening })

    -- `SendingPrepare`: a frame that is ready takes the packet.
    unfoldable pub prepare :
        Option (Unconnected.Packet × SocketAddr)
        → Handler F
        → Poll × F
        → Outcome (Control × Handler F)
    prepare pack h (Poll.pending, frame) = ok (wait, record h { frame = frame })
    prepare pack h (Poll.failed, frame) = ok (again, record h { frame = frame; state = listening })
    prepare none h (Poll.done, frame) = panic
    prepare (some (p, addr)) h (Poll.done, frame) = ok (sent h (io.start_send p addr frame))

    -- `SendingFlush`: the state is `Listening` again, whatever the flush has come to.
    unfoldable pub flush : Handler F → Poll × F → Outcome (Control × Handler F)
    flush h (Poll.pending, frame) = ok (wait, record h { frame = frame })
    flush h (r, frame) = ok (again, record h { frame = frame; state = listening })

    -- One round of the loop of `poll_next`, up to the end of what its state does.
    unfoldable pub round_in : OfflineState → Handler F → Outcome (Control × Handler F)
    round_in listening h = listen h (io.poll_next h.frame)
    round_in (sending_prepare pack) h = prepare pack h (io.poll_ready h.frame)
    round_in sending_flush h = flush h (io.poll_flush h.frame)

    abbrev pub round : Handler F → Outcome (Control × Handler F)
    round h = round_in h.state h
