-- ===== src/Auth.antt =====
-- core/src/auth: who may sign in.
pub mod PairingTokens
pub mod FailureLimiter
