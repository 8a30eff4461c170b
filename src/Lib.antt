-- ===== src/Lib.antt =====
-- A model of raknet-rs, a RakNet transport over UDP: reliable, ordered and fragmented messages between
-- two peers. Messages go down through a fragmenting encoder into frames, through a send buffer into
-- frame sets, and as datagrams to the peer; there frame sets come up through the duplicate window and
-- the ordering layer. A link notes which frame sets have arrived, and answers with acks and nacks.
--
-- Which file models what (paths from the root of the repository):
--   Seq                src/utils/seq_num.rs: `u24`, with its assertions
--   BitQueue           src/utils/bit_queue.rs: `BitVecQueue`; Refine, Back and Front give its
--                      operations on the list of its bits
--   Dedup              src/codec/decoder/dedup.rs: `DuplicateWindow` (Dedup) and `Dedup` (Layer)
--   Packet.Buf         what the packets use of the crate `bytes`, and `read_buf!`
--   Packet.Reliability src/lib.rs: `Reliability`
--   Packet.Frame       src/packet/connected/frame_set.rs: `FrameSet`, `Frame`, `Flags`, `Fragment`,
--                      `Ordered`, with their readers and writers
--   Packet.Body        the same file: `FrameBody`, with its codec
--   Packet.Addr        src/packet/mod.rs: the magic and the socket addresses
--   Packet.Unconnected src/packet/unconnected.rs: `Packet`, every reader and the writer
--   Packet.Connected   src/packet/connected/mod.rs: `Packet`
--   Packet.Dispatch    src/packet/mod.rs: `Packet`, a whole datagram
--   Packet.Ack         src/packet/connected/ack.rs: `AckOrNack`, `Record`, `extend_from`;
--                      Safety is on what makes `read` panic
--   Packet.PackType    src/packet/mod.rs: `PackType`
--   Order              src/codec/decoder/ordered.rs: `Order`
--   State              src/state.rs: `StateManager`, outgoing (State) and incoming (Incoming)
--   Link               src/link.rs: `TransferLink` and `Route`; Gaps is on the numbers that a peer
--                      has to send again
--   Reliable           src/reliable.rs: `SendBuffer`
--   Reliable.Resend    the same file: `ResendMap`; Count, Named, Inflight, Recorded, Stale and Stored
--                      are on its entries, their count of frames and on the frames that it gives back
--   Reliable.Layer     the same file: `ReliableLayer`, with `try_empty` (Flush) and what closes it
--                      (Close); Inflight, Step, Acks, Frames, Round and Flushed lead to the end of
--                      the flush, and Closing to that of a round of `poll_close`
--   Estimator          src/estimator.rs: `RFC6298Impl`
--   Flush              src/opts.rs: `FlushStrategy`
--   Codec.Fragment     src/codec/encoder/fragment.rs: `Fragment::start_send`
--   Codec.Defragment   src/codec/decoder/fragment.rs: `DeFragment`; Heap is on the order of the parts
--   Codec.Framed       src/codec/frame.rs: `Framed`, packets over a socket
--   Codec.Body         src/codec/encoder/body.rs and src/codec/decoder/body.rs: bodies as messages
--   Handshake.Server   src/server/handler/offline.rs: `OfflineHandler`; History accounts for its tables
--                      by what it has received, Invariant is on the rounds of its loop
--   Handshake.Client   src/client/handler/offline.rs: `OfflineHandler` and `FilterConnected`; Agreement
--                      is on a client with a server
--   Handshake.Online   src/server/handler/online.rs and src/client/handler/online.rs: `OnlineHandler`;
--                      Run is on what they hand up, Answers on what a server sends
--   Server             src/server/incoming/mod.rs: `Config` and the routes of `Incoming`; Open and Routing
--                      are on the connections that are open
--   Client             src/client/conn/mod.rs: `Config`
--   Codec.Config       src/codec/mod.rs: `Config`
--   Examples           concrete inputs, and instances of the parameters
--
-- How it is modelled. An operation that mutates takes its state and returns it. `Outcome` is a value, a
-- `CodecError`, a panic, or `stuck`, which is a loop out of fuel and no behaviour of the program.
-- Overflow checks and debug assertions are on, as in a debug build, so an underflow or a failed
-- `debug_assert!` is a panic. Integers are natural numbers: a `u24` is checked at its operations, `as u16`
-- and the like are remainders, and counters of type `usize` are taken not to overflow. A byte buffer is a
-- list of bytes. The stream below a layer is the list of what it gives; waiting is its end.
--
-- Bounds and fuel. The loop of `advance` takes one bit off the window a round, so one round more than
-- it has bits is enough; `FrameSet::read` gets as many rounds as there are bytes, since a frame takes
-- three; the loops of `pop` get one round more than there are frames; that of `StateManager::poll_close`
-- gets five rounds, for five states; the loop of `try_empty` gets one round more than there are packets and frames to
-- send. None of them runs out, as the results that speak of their outcomes show. The loops of
-- the handshakes go on as long as the frame below them gives packets, so their rounds are modelled, and
-- what rounds lead to. The loop of `ReliableLayer::poll_close` goes on until a peer has acknowledged all,
-- so it reads a list of what its clock says in each round.
--
-- Parameters. The crate `bytes` is the record `Packet.Buf.Buf` of operations with their documented laws;
-- the heap of the standard library is `Reliable.Heap`; the sink behind the state manager is `State.Sink`; the
-- cache of the crate `lru` is `Prelude.Lru`; the frame below a handler is `Handshake.Transport`, and that
-- below the reliable layer `Reliable.Layer.PacketSink`; how a socket sends is an argument of
-- `poll_flush_0`. Examples has an instance of each.
--
-- Not modelled: the reactor, whose timers wake a task that waits to send again, and the wakers; congestion
-- control; connecting as a client, and how the layers are wired to streams, tasks and sockets; tracing and
-- logging; and the XDP crates. They are timers, floating point, asynchronous glue, or third-party
-- interfaces.
pub mod Prelude
pub mod Seq
pub mod BitQueue
pub mod Dedup
pub mod Packet
pub mod Codec
pub mod Client
pub mod Estimator
pub mod Flush
pub mod Handshake
pub mod Link
pub mod Order
pub mod Reliable
pub mod Server
pub mod State
pub mod Examples
