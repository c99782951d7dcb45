-- ===== src/Session.antt =====
-- core/src/session: a connection and what happens when it is lost.
pub mod LinkRecovery
