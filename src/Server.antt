-- ===== src/Server.antt =====
-- src/rtl_stream_server.c: the server of the streaming protocol.
pub mod Publish
pub mod Socket
pub mod Pool
pub mod Handler
pub mod Spectrum
