-- ===== src/Session.antt =====
-- The session: who is let in, and how a request whose token has expired is sent again.
pub mod Expiry
pub mod Query
pub mod Refresh
