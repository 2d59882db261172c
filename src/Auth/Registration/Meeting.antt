-- ===== src/Auth/Registration/Meeting.antt =====
-- internal/api/auth/registration/repository.go: what a call of the repository meets: statements and
-- commits that the database refuses, replies that are lost, and what other transactions commit.
use stash_it_backend.Base.{ℕ, Bool}
use stash_it_backend.Database.{CommitReply, Query, execute, attempt, update_one}
use stash_it_backend.Auth.Registration.{Store, Code, RegistrationError, internal, conflict}
use stash_it_backend.Auth.Registration.Statements.{Answer}
use mathlib.Core.Option.{some}

pub data Statement : Type 0 where
  begins : Statement
  reads_completed : Statement
  locks_registration : Statement
  expires : Statement
  reads_recovery : Statement
  reads_continuation : Statement
  reads_identity : Statement
  creates_registration : Statement
  creates_request : Statement
  creates_identity : Statement
  reads_verification : Statement
  invalidates_code : Statement
  creates_code : Statement
  counts_pin : Statement
  reads_code : Statement
  counts_attempt : Statement
  consumes_code : Statement
  marks_verified : Statement
  creates_continuation : Statement
  reassigns : Statement
  creates_user : Statement
  creates_collection : Statement
  creates_credential : Statement
  consumes_continuation : Statement
  completes : Statement

-- `arrivals` is what others commit after a lookup that found no row to lock.
pub record Meeting : Type 0 where
  pub fails : Statement → Bool
  pub commit_reply : CommitReply
  pub arrivals : Store → Store

module _ (d : Meeting) where
  abbrev pub run_statement :
      {A : Type 0} → Statement → (Store → Answer A) → Query Store RegistrationError A
  run_statement q = attempt (d.fails q) internal

  abbrev pub read_rows : {A : Type 0} → Statement → (Store → A) → Query Store RegistrationError A
  read_rows q g = execute (d.fails q) internal internal (λ st. some (g st, st))

  abbrev pub write_rows : Statement → (Store → Store) → Query Store RegistrationError (Unit {0})
  write_rows q g = execute (d.fails q) internal internal (λ st. some (tt, g st))

  -- A statement whose number of rows is checked.
  abbrev pub change_one :
      Statement → (Store → ℕ × Store) → Code → Query Store RegistrationError (Unit {0})
  change_one q f code = update_one (d.fails q) internal (conflict code) f
