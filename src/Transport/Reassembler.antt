-- ===== src/Transport/Reassembler.antt =====
-- core/src/transport/Reassembler.cpp: the frames that arrive in packets, put together in order.
pub mod State
pub mod Loss
pub mod Recovery
pub mod Intake
pub mod Delivery
pub mod Valid
pub mod Order
pub mod Upkeep
pub mod Window
pub mod SlotLaws
pub mod Arrival
pub mod Run
pub mod Parity
pub mod Barrier
pub mod Refusal
pub mod Eviction
pub mod Integrity
pub mod Faithful
pub mod Restore
