-- ===== src/Input.antt =====
-- core/src/input: the keys and the mouse of a viewer, sent to the host.
pub mod Receiver
pub mod Sender
pub mod Delivery
