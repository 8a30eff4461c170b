-- ===== src/Handshake.antt =====
-- The handshake that opens a connection: src/server/handler and src/client/handler.
pub mod Transport
pub mod Server
pub mod Client
pub mod Online
