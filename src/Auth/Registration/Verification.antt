-- ===== src/Auth/Registration/Verification.antt =====
-- internal/api/auth/registration/repository.go: verification codes, and what a verified code does to
-- a registration.
use stash_it_backend.Base.{ℕ, not, none, some, leb, if◌then◌else◌, Result, ok, err}
use stash_it_backend.Base.Text.{Text}
use stash_it_backend.Database.{Query, fail, answer, ◌>>=◌, ◌>>◌, commit, transaction}
use stash_it_backend.Auth.Registration.{
  manual, PendingRegistration, VerificationRequest, VerificationCode, Continuation, Store,
  is_manual, is_pending, is_completed, unnamed, registration_already_completed,
  registration_not_pending, registration_expired, invalid_registration_type, RegistrationError,
  internal, not_found, conflict,
}
use stash_it_backend.Auth.Registration.Statements.{
  VerificationRow, get_verification, invalidate_verification_code, create_verification_code,
  update_request_pin_issued, get_active_verification_code, increment_code_attempts,
  consume_verification_code, mark_request_verified, create_registration_continuation,
  registration_with, force_expire_manual, create_pending_registration, reassign_request,
}
use stash_it_backend.Auth.Registration.Meeting.{
  Meeting, begins, reads_verification, invalidates_code, creates_code, counts_pin, reads_code,
  counts_attempt, consumes_code, marks_verified, creates_continuation, locks_registration, expires,
  creates_registration, reassigns, run_statement, read_rows, write_rows, change_one,
}

module _ (d : Meeting) where
  -- `IssueVerificationCode`.
  unfoldable pub issue_verification_code :
      ℕ → ℕ → ℕ → Text → ℕ → Store → Result RegistrationError VerificationRequest × Store
  issue_verification_code now new request hash expires_at =
      transaction (d.fails begins) internal (do
        write_rows d invalidates_code (invalidate_verification_code now request)
        run_statement d creates_code (create_verification_code new request hash expires_at)
        q ← run_statement d counts_pin (update_request_pin_issued now request)
        commit d.commit_reply internal
        answer q)

  -- `GetVerification`.
  unfoldable pub read_verification : ℕ → Store → Result RegistrationError VerificationRow
  read_verification i st =
      if d.fails reads_verification
      then err internal
      else elim (get_verification i st) [ none ↦ err not_found | some x ↦ ok x ]

  -- `GetActiveVerificationCode`.
  unfoldable pub read_active_code : ℕ → ℕ → ℕ → Store → Result RegistrationError VerificationCode
  read_active_code now request max st =
      if d.fails reads_code then err internal else get_active_verification_code now request max st

  -- `IncrementVerificationCodeAttempts`, one statement that commits by itself.
  unfoldable pub count_attempt : ℕ → ℕ → Store → Result RegistrationError ℕ × Store
  count_attempt i max st =
      if d.fails counts_attempt
      then (err internal, st)
      else elim (increment_code_attempts i max st) [ err e ↦ (err e, st) | ok (n, s) ↦ (ok n, s) ]

  -- `CompleteVerification`.
  unfoldable pub complete_verification :
      ℕ → ℕ → ℕ → ℕ → ℕ → Text → ℕ → Store → Result RegistrationError Continuation × Store
  complete_verification now new code request subject hash expires_at =
      transaction (d.fails begins) internal (do
        change_one d consumes_code (consume_verification_code now code) unnamed
        change_one d marks_verified (mark_request_verified request) unnamed
        c ←
            run_statement d creates_continuation
              (create_registration_continuation new subject hash expires_at)
        commit d.commit_reply internal
        answer c)

  -- The registration that a recovery replaces is replaced by a new one for its address.
  unfoldable pub replace_recovered :
      ℕ → ℕ → ℕ → ℕ → Text → ℕ → PendingRegistration → Query Store RegistrationError Continuation
  replace_recovered new new_registration request expires_at hash new_expires_at old = do
    change_one d expires (force_expire_manual old.id) unnamed
    r ←
        run_statement d creates_registration
          (create_pending_registration new_registration old.email manual new_expires_at)
    change_one d reassigns (reassign_request request r.id) unnamed
    c ←
        run_statement d creates_continuation
          (create_registration_continuation new r.id hash expires_at)
    commit d.commit_reply internal
    answer c

  -- The locked row of the old registration, by its checks.
  unfoldable pub decide_recovered :
      ℕ
      → ℕ
      → ℕ
      → ℕ
      → ℕ
      → Text
      → ℕ
      → PendingRegistration
      → Query Store RegistrationError Continuation
  unfolding replace_recovered
  decide_recovered now new new_registration request expires_at hash new_expires_at old =
      if is_completed old.status
      then fail (conflict registration_already_completed)
      else if not (is_pending old.status)
      then fail (conflict registration_expired)
      else if not (is_manual old.registration_type)
      then fail (conflict invalid_registration_type)
      else if leb old.expires_at now
      then fail (conflict registration_expired)
      else replace_recovered new new_registration request expires_at hash new_expires_at old

  -- `CompleteRecoveryVerification`.
  unfoldable pub complete_recovery :
      ℕ → ℕ → ℕ → ℕ → ℕ → ℕ → Text → ℕ → ℕ → Store → Result RegistrationError Continuation × Store
  unfolding decide_recovered
  complete_recovery now new new_registration code request subject hash expires_at new_expires_at =
      transaction (d.fails begins) internal (do
        change_one d consumes_code (consume_verification_code now code) unnamed
        change_one d marks_verified (mark_request_verified request) unnamed
        old ← read_rows d locks_registration (λ st. registration_with subject st.registrations)
        elim old [
          | none ↦ fail (conflict registration_not_pending)
          | some r ↦
              decide_recovered now new new_registration request expires_at hash new_expires_at r
        ])
