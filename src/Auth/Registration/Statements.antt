-- ===== src/Auth/Registration/Statements.antt =====
-- internal/api/auth/registration/queries.sql: the statements, with the keys and indexes of the
-- migrations and the codes that `mapRegistrationDBError` gives to their violations. The database's
-- clock, `now`, and the ids that `uuidv7()` draws are arguments.
mod Pending
mod Codes
mod Accounts
unfoldable pub use Pending.*
unfoldable pub use Codes.*
unfoldable pub use Accounts.*
