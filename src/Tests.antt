-- ===== src/Tests.antt =====
-- The theorems at concrete inputs.
mod Wire
mod Transport
mod Link
mod Input
mod Media
mod Auth
mod Session
mod Quality
mod Limits
