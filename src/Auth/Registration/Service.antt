-- ===== src/Auth/Registration/Service.antt =====
-- internal/api/auth/registration/service.go and service_validation.go: the checks of the service,
-- and the order in which it reads, decides and writes. The clock of the host is `now`, the
-- database's `db_now`; `lower` is `strings.ToLower` and `hash_token` is `security.HashToken`.
use stash_it_backend.Base.{
  ℕ, ◌+◌, ◌*◌, Bool, true, false, not, List, Option, none, some, ltb, leb, is_some, if◌then◌else◌,
  Result, ok, err, ◌>>=◌,
}
use stash_it_backend.Base.Text.{Text}
use stash_it_backend.Base.Space.{trim_space}
use stash_it_backend.Auth.Registration.{
  ProviderIdentity, registration_already_completed, verification_not_pending,
  registration_not_pending, registration_expired, registration_continuation_consumed,
  registration_continuation_expired, verification_resend_cooldown, invalid_verification_code,
  verification_code_attempts_exceeded, is_pending, is_verified, is_registration, VerificationCode,
  Store, RegistrationError, internal, conflict,
}
use stash_it_backend.Auth.Registration.Statements.{VerificationRow, ContinuationRow}
use stash_it_backend.Auth.Registration.Meeting.{Meeting}
use stash_it_backend.Auth.Registration.Opening.{
  Opened, Drawn, create_manual_registration, create_social_registration, initiate_manual_recovery,
}
use stash_it_backend.Auth.Registration.Verification.{
  read_verification, read_active_code, count_attempt, complete_verification, complete_recovery,
}
use stash_it_backend.Auth.Registration.Finalization.{read_completed, read_continuation}
use stash_it_backend.Security.VerificationCode.{verify_code}

abbrev pub seconds : ℕ → ℕ
seconds n = n * 1000000000

abbrev pub registration_expires_in : ℕ
registration_expires_in = seconds (7 * 24 * 3600)

abbrev pub registration_continuation_expires_in : ℕ
registration_continuation_expires_in = seconds (15 * 60)

abbrev pub verification_code_expires_in : ℕ
verification_code_expires_in = seconds (5 * 60)

abbrev pub verification_resend_cooldown_time : ℕ
verification_resend_cooldown_time = seconds 60

abbrev pub verification_code_max_attempts : ℕ
verification_code_max_attempts = 5

unfoldable pub normalize_email : (Text → Text) → Text → Text
normalize_email lower email = lower (trim_space email)

abbrev pub Check : Type 0
Check = Result RegistrationError (Unit {0})

abbrev pub refuse_unless : Bool → RegistrationError → Check
refuse_unless true e = ok tt
refuse_unless false e = err e

infixl 5 ◌>>◌
abbrev pub ◌>>◌ : Check → Check → Check
a >> b = a >>= λ _. b

-- `validateVerificationPending`; the columns that it tests for NULL are NOT NULL.
unfoldable pub validate_verification_pending : ℕ → VerificationRow → Check
validate_verification_pending now v = do
  refuse_unless (not (is_verified v.request.status)) (conflict verification_not_pending)
  refuse_unless (is_pending v.registration.status) (conflict registration_not_pending)
  refuse_unless (ltb now v.registration.expires_at) (conflict registration_expired)

-- `ensureVerificationCooldownElapsed`.
unfoldable pub ensure_cooldown_elapsed : ℕ → VerificationRow → Check
ensure_cooldown_elapsed now v = elim v.request.last_sent_at [
  | none ↦ ok tt
  | some t ↦
      refuse_unless (leb (t + verification_resend_cooldown_time) now)
        (conflict verification_resend_cooldown)
]

-- `validateRegistrationContinuation`.
unfoldable pub validate_continuation : ℕ → ContinuationRow → Check
validate_continuation now x = do
  refuse_unless (not (is_some x.continuation.consumed_at))
      (conflict registration_continuation_consumed)
  refuse_unless (ltb now x.continuation.expires_at) (conflict registration_continuation_expired)
  refuse_unless (is_pending x.registration.status) (conflict registration_not_pending)
  refuse_unless (ltb now x.registration.expires_at) (conflict registration_expired)

-- The first lookup of `RegisterManual` and `InitiateManualRecovery`.
unfoldable pub ensure_not_completed : Meeting → Text → Store → Check
ensure_not_completed d email st = do
  found ← read_completed d email st
  refuse_unless (not (is_some found)) (conflict registration_already_completed)

-- `meanwhile` is what others commit between two calls of the repository.
module _ (lower : Text → Text) (d d' : Meeting) (meanwhile : Store → Store) (now db_now : ℕ) where
  -- `RegisterManual`.
  unfoldable pub register_manual :
      Drawn → Drawn → Text → Store → Result RegistrationError Opened × Store
  register_manual new new' address st =
      let email = normalize_email lower address in
      elim (ensure_not_completed d email st) [
        | err e ↦ (err e, st)
        | ok _ ↦
            create_manual_registration d d' db_now new new' email (now + registration_expires_in)
              (meanwhile st)
      ]

  -- `InitiateManualRecovery`.
  unfoldable pub initiate_recovery : Drawn → Text → Store → Result RegistrationError Opened × Store
  initiate_recovery new address st =
      let email = normalize_email lower address in
      elim (ensure_not_completed d email st) [
        | err e ↦ (err e, st)
        | ok _ ↦ initiate_manual_recovery d db_now new email (meanwhile st)
      ]

  -- `CreateSocialRegistration`.
  unfoldable pub register_social :
      Drawn → Drawn → Text → ProviderIdentity → Store → Result RegistrationError Opened × Store
  register_social new new' address identity =
      create_social_registration d d' db_now new new' (normalize_email lower address)
        (now + registration_expires_in) identity

-- `GetVerification`, by its row.
unfoldable pub pending_verification :
    Meeting → ℕ → ℕ → Store → Result RegistrationError VerificationRow
pending_verification d now i st = do
  v ← read_verification d i st
  validate_verification_pending now v >>= λ _. ok v

-- The ids and the token that the completion of a verification draws.
pub record Completion : Type 0 where
  pub new_continuation : ℕ
  pub new_registration : ℕ
  pub drawn_token : Option Text

module _ (hash_token : Text → Text) (mac : Text → Text → List ℕ) (secret : Text) (d : Meeting) where
  -- What follows a right code.
  unfoldable pub complete :
      ℕ
      → ℕ
      → Completion
      → VerificationRow
      → VerificationCode
      → Store
      → Result RegistrationError Text × Store
  complete now db_now new v code st = elim new.drawn_token [
    | none ↦ (err internal, st)
    | some token ↦
        let expires_at = now + registration_continuation_expires_in in
        let (r, s) =
          if is_registration v.request.purpose
          then complete_verification d db_now new.new_continuation code.id v.request.id
              v.request.subject_id (hash_token token) expires_at st
          else complete_recovery d db_now new.new_continuation new.new_registration code.id
              v.request.id v.request.subject_id (hash_token token) expires_at
              (now + registration_expires_in) st in
        elim r [ err e ↦ (err e, s) | ok c ↦ (ok token, s) ]
  ]

  -- What follows a wrong one.
  unfoldable pub count_wrong : VerificationCode → Store → Result RegistrationError Text × Store
  count_wrong code st =
      let (r, s) = count_attempt d code.id verification_code_max_attempts st in
      elim r [
        | err e ↦ (err e, s)
        | ok n ↦ (
          err (
              conflict (
                if leb verification_code_max_attempts n
                then verification_code_attempts_exceeded
                else invalid_verification_code)),
          s,
        )
      ]

  -- `VerifyRegistration`: others commit between the two reads, and before the write.
  unfoldable pub verify_registration :
      (before_code before_write : Store → Store)
      → ℕ
      → ℕ
      → Completion
      → ℕ
      → Text
      → Store
      → Result RegistrationError Text × Store
  unfolding complete count_wrong
  verify_registration before_code before_write now db_now new i pin st =
      elim (pending_verification d now i st) [
        | err e ↦ (err e, st)
        | ok v ↦
            let st' = before_code st in
            elim (read_active_code d db_now i verification_code_max_attempts st') [
              | err e ↦ (err e, st')
              | ok code ↦
                  if verify_code mac secret pin code.code_hash
                  then complete now db_now new v code (before_write st')
                  else count_wrong code (before_write st')
            ]
      ]

-- `GetRegistrationContinuation`, by its row.
unfoldable pub usable_continuation :
    (hash_token : Text → Text)
    → Meeting
    → ℕ
    → Text
    → Store
    → Result RegistrationError ContinuationRow
usable_continuation hash_token d now token st = do
  x ← read_continuation d (hash_token token) st
  validate_continuation now x >>= λ _. ok x
