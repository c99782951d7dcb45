-- ===== src/Media.antt =====
-- core/include/deskhub/media: sound on its way to the device.
pub mod PcmRing
