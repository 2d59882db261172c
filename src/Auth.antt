-- ===== src/Auth.antt =====
-- internal/api/auth: how a user's sessions start, go on and end.
pub mod Session
pub mod Registration
