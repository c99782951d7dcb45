-- ===== src/Protocol.antt =====
-- core/src/protocol and core/include/deskhub/protocol: the wire format.
pub mod ByteOrder
pub mod MsgType
pub mod Wire
pub mod Record
pub mod RecordStream
