-- ===== src/Transport.antt =====
-- core/src/transport: frames cut into packets and put together again.
pub mod Reassembler
pub mod Packetizer
pub mod Link
