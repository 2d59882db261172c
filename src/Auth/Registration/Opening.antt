-- ===== src/Auth/Registration/Opening.antt =====
-- internal/api/auth/registration/repository.go: how a registration or its recovery is opened, and
-- what happens to the one that an address already has.
use stash_it_backend.Base.{
  ℕ, Bool, true, false, not, ◌&&◌, none, some, leb, if◌then◌else◌, Result, ok, err,
}
use stash_it_backend.Base.Text.{Text}
use stash_it_backend.Database.{Query, fail, answer, ◌>>=◌, ◌>>◌, others, commit, transaction}
use stash_it_backend.Auth.Registration.{
  manual, social, registration, registration_recovery, RequestStatus, VerificationRequest,
  ProviderIdentity, Store, is_manual, is_social, is_verified, unnamed, registration_already_pending,
  registration_already_exists, registration_identity_mismatch, registration_not_pending,
  registration_expired, invalid_registration_type, RegistrationError, internal, conflict,
}
use stash_it_backend.Auth.Registration.Statements.{
  ExistingRow, get_pending_registration_by_email, get_pending_recovery, has_usable_continuation,
  force_expire_social, force_expire_manual, expire_pending_registration,
  create_pending_registration, create_verification_request, get_pending_social_identity,
  same_identity, create_pending_social_identity,
}
use stash_it_backend.Auth.Registration.Meeting.{
  Meeting, begins, locks_registration, expires, reads_recovery, reads_continuation, reads_identity,
  creates_registration, creates_request, creates_identity, run_statement, read_rows, change_one,
}

-- `CreateManualRegistrationResult` and `InitiateManualRecoveryResult`.
pub record Opened : Type 0 where
  pub request_id : ℕ
  pub status : RequestStatus
  pub already_pending : Bool

abbrev pub newly : VerificationRequest → Opened
newly q = record { request_id = q.id; status = q.status; already_pending = false }

abbrev pub already : VerificationRequest → Opened
already q = record { request_id = q.id; status = q.status; already_pending = true }

-- The ids that the inserts draw.
pub record Drawn : Type 0 where
  pub registration_id : ℕ
  pub request_id : ℕ

module _ (d : Meeting) (now : ℕ) (new : Drawn) (email : Text) where
  -- The inserts of `createManualRegistrationOnce`, and their commit.
  unfoldable pub open_manual : ℕ → Query Store RegistrationError Opened
  open_manual expires_at = do
    r ←
        run_statement d creates_registration
          (create_pending_registration new.registration_id email manual expires_at)
    q ←
        run_statement d creates_request
          (create_verification_request new.request_id r.id registration)
    commit d.commit_reply internal
    answer (newly q)

  -- A manual registration that is pending, unexpired and verified.
  unfoldable pub keep_or_replace : ℕ → ExistingRow → Query Store RegistrationError Opened
  unfolding open_manual
  keep_or_replace expires_at x = do
    recovery ← read_rows d reads_recovery (get_pending_recovery x.registration.id)
    elim recovery [
      | some q ↦ answer (already q)
      | none ↦ (do
        usable ← read_rows d reads_continuation (has_usable_continuation now x.registration.id)
        (if usable then answer (already x.request) else (do
          change_one d expires (force_expire_manual x.registration.id) unnamed
          open_manual expires_at)))
    ]

  unfoldable pub decide_manual : ℕ → ExistingRow → Query Store RegistrationError Opened
  unfolding keep_or_replace open_manual
  decide_manual expires_at x =
      if is_social x.registration.registration_type
      then (do
        change_one d expires (force_expire_social x.registration.id) unnamed
        open_manual expires_at)
      else if leb x.registration.expires_at now
      then (do
        change_one d expires (expire_pending_registration now x.registration.id) unnamed
        open_manual expires_at)
      else if not (is_verified x.request.status)
      then answer (already x.request)
      else keep_or_replace expires_at x

  unfoldable pub create_manual_once : ℕ → Store → Result RegistrationError Opened × Store
  unfolding decide_manual
  create_manual_once expires_at = transaction (d.fails begins) internal (do
    existing ← read_rows d locks_registration (get_pending_registration_by_email email)
    elim existing [
      | some x ↦ decide_manual expires_at x
      | none ↦ (do others d.arrivals; open_manual expires_at)
    ])

  -- `InitiateManualRecovery`.
  unfoldable pub recover : ExistingRow → Query Store RegistrationError Opened
  recover x =
      if not (is_manual x.registration.registration_type)
      then fail (conflict invalid_registration_type)
      else if leb x.registration.expires_at now
      then fail (conflict registration_expired)
      else if not (is_verified x.request.status)
      then fail (conflict registration_already_pending)
      else (do
        recovery ← read_rows d reads_recovery (get_pending_recovery x.registration.id)
        elim recovery [
          | some q ↦ answer (already q)
          | none ↦ (do
            q ←
                run_statement d creates_request (
                  create_verification_request new.request_id x.registration.id
                    registration_recovery)
            commit d.commit_reply internal
            answer (newly q))
        ])

  unfoldable pub initiate_manual_recovery : Store → Result RegistrationError Opened × Store
  unfolding recover
  initiate_manual_recovery = transaction (d.fails begins) internal (do
    existing ← read_rows d locks_registration (get_pending_registration_by_email email)
    elim existing [ none ↦ fail (conflict registration_not_pending) | some x ↦ recover x ])

  -- The inserts of `createSocialRegistrationOnce`, and their commit.
  unfoldable pub open_social : ℕ → ProviderIdentity → Query Store RegistrationError Opened
  open_social expires_at identity = do
    r ←
        run_statement d creates_registration
          (create_pending_registration new.registration_id email social expires_at)
    run_statement d creates_identity (create_pending_social_identity r.id identity)
    q ←
        run_statement d creates_request
          (create_verification_request new.request_id r.id registration)
    commit d.commit_reply internal
    answer (newly q)

  -- A social registration that is pending, and the identity that opened it.
  unfoldable pub decide_same_kind :
      ℕ → ProviderIdentity → ExistingRow → ProviderIdentity → Query Store RegistrationError Opened
  unfolding open_social
  decide_same_kind expires_at identity x owner =
      let is_expired = leb x.registration.expires_at now in
      if not (same_identity owner identity) && not is_expired
      then fail (conflict registration_identity_mismatch)
      else if not is_expired && not (is_verified x.request.status)
      then answer (newly x.request)
      else if is_expired
      then (do
        change_one d expires (expire_pending_registration now x.registration.id) unnamed
        open_social expires_at identity)
      else (do
        change_one d expires (force_expire_social x.registration.id) unnamed
        open_social expires_at identity)

  unfoldable pub decide_social :
      ℕ → ProviderIdentity → ExistingRow → Query Store RegistrationError Opened
  unfolding open_social decide_same_kind
  decide_social expires_at identity x =
      if is_manual x.registration.registration_type
      then (do
        change_one d expires (force_expire_manual x.registration.id) unnamed
        open_social expires_at identity)
      else (do
        found ← read_rows d reads_identity (get_pending_social_identity x.registration.id)
        elim found [
          | none ↦ fail internal
          | some p ↦ decide_same_kind expires_at identity x p.identity
        ])

  unfoldable pub create_social_once :
      ℕ → ProviderIdentity → Store → Result RegistrationError Opened × Store
  unfolding decide_social open_social
  create_social_once expires_at identity = transaction (d.fails begins) internal (do
    existing ← read_rows d locks_registration (get_pending_registration_by_email email)
    elim existing [
      | some x ↦ decide_social expires_at identity x
      | none ↦ (do others d.arrivals; open_social expires_at identity)
    ])

-- `isPendingRegistrationEmailConflict`.
unfoldable pub is_email_conflict : Result RegistrationError Opened → Bool
is_email_conflict (ok o) = false
is_email_conflict (err (conflict registration_already_exists)) = true
is_email_conflict (err _) = false

-- A first run, and a second one after a lost race for the address.
unfoldable pub once_more :
    (Store → Result RegistrationError Opened × Store)
    → (Store → Result RegistrationError Opened × Store)
    → Store
    → Result RegistrationError Opened × Store
unfolding is_email_conflict
once_more first second st =
    let (r, s) = first st in if is_email_conflict r then second s else (r, s)

module _ (d d' : Meeting) (now : ℕ) (new new' : Drawn) (email : Text) (expires_at : ℕ) where
  -- `CreateManualRegistration`.
  unfoldable pub create_manual_registration : Store → Result RegistrationError Opened × Store
  unfolding once_more create_manual_once
  create_manual_registration =
      once_more (create_manual_once d now new email expires_at)
        (create_manual_once d' now new' email expires_at)

  -- `CreateSocialRegistration`.
  unfoldable pub create_social_registration :
      ProviderIdentity → Store → Result RegistrationError Opened × Store
  unfolding once_more create_social_once
  create_social_registration identity =
      once_more (create_social_once d now new email expires_at identity)
        (create_social_once d' now new' email expires_at identity)
