-- ===== src/Auth/Registration/Statements/Pending.antt =====
-- internal/api/auth/registration/queries.sql: the statements on pending registrations and on their
-- verification requests. An update answers the number of rows it changed.
use stash_it_backend.Base.{
  ℕ, ◌+◌, Bool, not, ◌&&◌, List, ◌∷◌, Option, none, some, ltb, leb, ◌==◌, if◌then◌else◌, find,
  update_where, count_where, is_some, Result, ok, err,
}
use stash_it_backend.Base.Text.{Text, text_eq}
use stash_it_backend.Auth.Registration.{
  RegistrationType, pending, completed, expired, Purpose, registration, unverified, verified,
  PendingRegistration, VerificationRequest, Store, is_manual, is_social, is_pending, is_completed,
  is_live, is_registration, is_verified, registration_already_exists, RegistrationError, internal,
  conflict,
}

abbrev pub Answer : Type 0 → Type 0
Answer A = Result RegistrationError (A × Store)

abbrev pub registration_with : ℕ → List PendingRegistration → Option PendingRegistration
registration_with i = find (λ r. r.id == i)

abbrev pub request_with : ℕ → List VerificationRequest → Option VerificationRequest
request_with i = find (λ q. q.id == i)

-- `pending_registrations_email_idx`.
abbrev pub is_taken : Text → PendingRegistration → Bool
is_taken email r = text_eq r.email email && is_live r.status

unfoldable pub create_pending_registration :
    ℕ → Text → RegistrationType → ℕ → Store → Answer PendingRegistration
create_pending_registration new email kind expires st =
    let r : PendingRegistration = record {
      id = new;
      email = email;
      registration_type = kind;
      status = pending;
      expires_at = expires;
    } in
    if is_some (registration_with new st.registrations)
    then err internal
    else if is_some (find (is_taken email) st.registrations)
    then err (conflict registration_already_exists)
    else ok (r, record st { registrations = r ∷ st.registrations })

unfoldable pub create_verification_request : ℕ → ℕ → Purpose → Store → Answer VerificationRequest
create_verification_request new subject purpose st =
    let q : VerificationRequest = record {
      id = new;
      subject_id = subject;
      purpose = purpose;
      status = unverified;
      pin_issued_count = 0;
      last_sent_at = none;
    } in
    if is_some (request_with new st.requests)
    then err internal
    else ok (q, record st { requests = q ∷ st.requests })

-- A row of the join of `GetVerification`.
pub record VerificationRow : Type 0 where
  pub request : VerificationRequest
  pub registration : PendingRegistration

unfoldable pub get_verification : ℕ → Store → Option VerificationRow
get_verification i st = elim (request_with i st.requests) [
  | none ↦ none
  | some q ↦ elim (registration_with q.subject_id st.registrations) [
    | none ↦ none
    | some r ↦ some (record { request = q; registration = r })
  ]
]

unfoldable pub update_request_pin_issued : ℕ → ℕ → Store → Answer VerificationRequest
update_request_pin_issued now i st = elim (request_with i st.requests) [
  | none ↦ err internal
  | some q ↦
      let issued = λ (x : VerificationRequest). record x {
        pin_issued_count = x.pin_issued_count + 1;
        last_sent_at = some now;
      } in
      ok (issued q, record st { requests = update_where (λ x. x.id == i) issued st.requests })
]

abbrev pub is_open_request : ℕ → VerificationRequest → Bool
is_open_request i q = (q.id == i) && not (is_verified q.status)

unfoldable pub mark_request_verified : ℕ → Store → ℕ × Store
mark_request_verified i st = (
  count_where (is_open_request i) st.requests,
  record st {
    requests = update_where (is_open_request i) (λ q. record q { status = verified }) st.requests;
  },
)

-- The join of the two registration lookups by address.
abbrev pub opening_request : ℕ → List VerificationRequest → Option VerificationRequest
opening_request i = find (λ q. (q.subject_id == i) && is_registration q.purpose)

-- `GetCompletedRegistrationByEmail`.
unfoldable pub get_completed_registration : Text → Store → Option ℕ
get_completed_registration email st =
    elim (find (λ r. text_eq r.email email && is_completed r.status) st.registrations) [
      | none ↦ none
      | some r ↦ elim (opening_request r.id st.requests) [ none ↦ none | some q ↦ some r.id ]
    ]

-- A row of `GetPendingRegistrationByEmailForUpdate`.
pub record ExistingRow : Type 0 where
  pub registration : PendingRegistration
  pub request : VerificationRequest

unfoldable pub get_pending_registration_by_email : Text → Store → Option ExistingRow
get_pending_registration_by_email email st =
    elim (find (λ r. text_eq r.email email && is_pending r.status) st.registrations) [
      | none ↦ none
      | some r ↦ elim (opening_request r.id st.requests) [
        | none ↦ none
        | some q ↦ some (record { registration = r; request = q })
      ]
    ]

-- `GetPendingRecoveryVerificationByPendingRegistration`.
unfoldable pub get_pending_recovery : ℕ → Store → Option VerificationRequest
get_pending_recovery i st =
    find
      (λ q. (q.subject_id == i) && (not (is_registration q.purpose) && not (is_verified q.status)))
      st.requests

abbrev pub is_reassignable : ℕ → VerificationRequest → Bool
is_reassignable i q = (q.id == i) && (not (is_registration q.purpose) && is_verified q.status)

unfoldable pub reassign_request : ℕ → ℕ → Store → ℕ × Store
reassign_request i subject st = (
  count_where (is_reassignable i) st.requests,
  record st {
    requests =
        update_where (is_reassignable i)
          (λ q. record q { subject_id = subject; purpose = registration }) st.requests;
  },
)

-- The three statements that expire a pending registration, by the test of each.
unfoldable pub expire_where : (PendingRegistration → Bool) → Store → ℕ × Store
expire_where p st =
    let due = λ (r : PendingRegistration). is_pending r.status && p r in
    (
      count_where due st.registrations,
      record st {
        registrations = update_where due (λ r. record r { status = expired }) st.registrations;
      },
    )

-- `ForceExpireSocialPendingRegistration`.
unfoldable pub force_expire_social : ℕ → Store → ℕ × Store
unfolding expire_where
force_expire_social i = expire_where (λ r. (r.id == i) && is_social r.registration_type)

-- `ForceExpireManualPendingRegistration`.
unfoldable pub force_expire_manual : ℕ → Store → ℕ × Store
unfolding expire_where
force_expire_manual i = expire_where (λ r. (r.id == i) && is_manual r.registration_type)

-- `ExpirePendingRegistration`.
unfoldable pub expire_pending_registration : ℕ → ℕ → Store → ℕ × Store
unfolding expire_where
expire_pending_registration now i = expire_where (λ r. (r.id == i) && leb r.expires_at now)

abbrev pub is_completable : ℕ → ℕ → PendingRegistration → Bool
is_completable now i r = (r.id == i) && (is_pending r.status && ltb now r.expires_at)

unfoldable pub complete_pending_registration : ℕ → ℕ → Store → ℕ × Store
complete_pending_registration now i st = (
  count_where (is_completable now i) st.registrations,
  record st {
    registrations =
        update_where (is_completable now i) (λ r. record r { status = completed }) st.registrations;
  },
)
