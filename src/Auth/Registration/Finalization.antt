-- ===== src/Auth/Registration/Finalization.antt =====
-- internal/api/auth/registration/repository.go: how a verified registration becomes an account.
use stash_it_backend.Base.{ℕ, Option, none, some, if◌then◌else◌, Result, ok, err}
use stash_it_backend.Base.Text.{Text}
use stash_it_backend.Database.{Query, fail, answer, ◌>>=◌, ◌>>◌, commit, transaction}
use stash_it_backend.Auth.Registration.{
  User, ProviderIdentity, Store, unnamed, RegistrationError, internal, conflict,
}
use stash_it_backend.Auth.Registration.Statements.{
  ContinuationRow, get_registration_continuation, create_user, create_unsorted_collection,
  create_password_credential, consume_registration_continuation, complete_pending_registration,
  get_pending_social_identity, create_auth_identity, get_completed_registration,
}
use stash_it_backend.Auth.Registration.Meeting.{
  Meeting, begins, reads_completed, reads_continuation, reads_identity, creates_user,
  creates_collection, creates_credential, creates_identity, consumes_continuation, completes,
  run_statement, read_rows, change_one,
}

-- `FinalizeManualRegistrationParams` and `FinalizeSocialRegistrationParams`, with the ids that the
-- inserts draw.
pub record Finalization : Type 0 where
  pub registration_id : ℕ
  pub continuation_id : ℕ
  pub email : Text
  pub display_name : Text
  pub email_verified_at : ℕ
  pub new_user : ℕ
  pub new_collection : ℕ

module _ (d : Meeting) where
  -- `GetCompletedRegistrationByEmail`.
  unfoldable pub read_completed : Text → Store → Result RegistrationError (Option ℕ)
  read_completed email st =
      if d.fails reads_completed then err internal else ok (get_completed_registration email st)

  -- `GetRegistrationContinuation`.
  unfoldable pub read_continuation : Text → Store → Result RegistrationError ContinuationRow
  read_continuation hash st =
      if d.fails reads_continuation
      then err internal
      else elim (get_registration_continuation hash st) [
        | none ↦ err (conflict unnamed)
        | some x ↦ ok x
      ]

  -- The end of both transactions.
  unfoldable pub spend_and_complete : ℕ → Finalization → User → Query Store RegistrationError User
  spend_and_complete now p u = do
    change_one d consumes_continuation (consume_registration_continuation now p.continuation_id)
        unnamed
    change_one d completes (complete_pending_registration now p.registration_id) unnamed
    commit d.commit_reply internal
    answer u

  -- `FinalizeManualRegistration`.
  unfoldable pub finalize_manual :
      ℕ → Finalization → Text → Store → Result RegistrationError User × Store
  unfolding spend_and_complete
  finalize_manual now p password_hash = transaction (d.fails begins) internal (do
    u ←
        run_statement d creates_user
          (create_user p.new_user p.email p.display_name p.email_verified_at)
    run_statement d creates_collection (create_unsorted_collection p.new_collection u.id)
    run_statement d creates_credential (create_password_credential u.id password_hash)
    spend_and_complete now p u)

  -- `FinalizeSocialRegistration`, with the identity that was read.
  unfoldable pub finalize_identity :
      ℕ → Finalization → ProviderIdentity → Query Store RegistrationError User
  unfolding spend_and_complete
  finalize_identity now p identity = do
    u ←
        run_statement d creates_user
          (create_user p.new_user p.email p.display_name p.email_verified_at)
    run_statement d creates_collection (create_unsorted_collection p.new_collection u.id)
    run_statement d creates_identity (create_auth_identity u.id identity)
    spend_and_complete now p u

  unfoldable pub finalize_social : ℕ → Finalization → Store → Result RegistrationError User × Store
  unfolding finalize_identity
  finalize_social now p = transaction (d.fails begins) internal (do
    found ← read_rows d reads_identity (get_pending_social_identity p.registration_id)
    elim found [ none ↦ fail internal | some x ↦ finalize_identity now p x.identity ])
