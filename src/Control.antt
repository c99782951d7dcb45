-- ===== src/Control.antt =====
-- core/src/control: the rate of the stream.
pub mod BitrateController
pub mod QualityLadder
