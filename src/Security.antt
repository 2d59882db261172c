-- ===== src/Security.antt =====
-- internal/security: the bound on concurrent password work, and verification codes.
pub mod PasswordWork
pub mod VerificationCode
