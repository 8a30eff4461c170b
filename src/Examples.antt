-- ===== src/Examples.antt =====
-- The theorems at concrete inputs, and small runs.
mod Bytes
mod Packets
mod Windows
mod Layers
mod Flushes
mod Heaps
mod Caches
mod Datagrams
mod Messages
mod Handshakes
mod Connections
mod Resends
mod Framings
mod Servers
