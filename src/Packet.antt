-- ===== src/Packet.antt =====
-- The wire format of src/packet: frames, frame sets, acknowledgements and the packets that hold them.
pub mod Buf
pub mod Reliability
pub mod Consumes
pub mod Addr
pub mod Frame
pub mod Ack
pub mod Body
pub mod PackType
pub mod Unconnected
pub mod Connected
pub mod Dispatch
