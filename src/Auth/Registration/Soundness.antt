-- ===== src/Auth/Registration/Soundness.antt =====
-- internal/api/auth/registration: the invariant of the tables, over each statement, transaction
-- and call.
mod Facts
mod Tables
mod Codes
mod Statements
mod CodeStatements
mod Proofs
mod Accounts
pub mod Opening
pub mod Verification
pub mod Finalization
pub mod Reads
mod Registering
pub mod Verifying
mod Issuing
pub mod Finalizing
pub mod Service
mod Verified
pub mod Final
pub use Facts.*
pub use Tables.*
pub use Codes.*
pub use Statements.*
pub use CodeStatements.*
pub use Proofs.*
pub use Accounts.*
