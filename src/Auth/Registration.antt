-- ===== src/Auth/Registration.antt =====
-- internal/api/auth/registration: the rows of the tables that a registration goes through, with the
-- columns that the package reads (migrations 000001 to 000029). A table lists its rows with the
-- newest first, so that `ORDER BY created_at DESC LIMIT 1` is the first row that is found. Of
-- `verification_requests` these are the rows whose subject is a pending registration.
pub mod Statements
pub mod Meeting
pub mod Opening
pub mod Verification
pub mod Finalization
pub mod Service
pub mod Operations
pub mod Soundness
pub mod Issuance
pub mod Accounts
pub mod Guesses
pub mod Issued
mod Checks
pub mod Once
pub mod Finalized
pub mod Granted
use stash_it_backend.Base.{ℕ, Bool, true, false, List, Option}
use stash_it_backend.Base.Text.{Text}

pub data RegistrationType : Type 0 where
  manual : RegistrationType
  social : RegistrationType

pub data RegistrationStatus : Type 0 where
  pending : RegistrationStatus
  completed : RegistrationStatus
  expired : RegistrationStatus

pub data Purpose : Type 0 where
  registration : Purpose
  registration_recovery : Purpose

-- `VerificationRequestPending` and `VerificationRequestVerified`.
pub data RequestStatus : Type 0 where
  unverified : RequestStatus
  verified : RequestStatus

pub record PendingRegistration : Type 0 where
  pub id : ℕ
  pub email : Text
  pub registration_type : RegistrationType
  pub status : RegistrationStatus
  pub expires_at : ℕ

pub record VerificationRequest : Type 0 where
  pub id : ℕ
  pub subject_id : ℕ
  pub purpose : Purpose
  pub status : RequestStatus
  pub pin_issued_count : ℕ
  pub last_sent_at : Option ℕ

pub record VerificationCode : Type 0 where
  pub id : ℕ
  pub verification_request_id : ℕ
  pub code_hash : Text
  pub attempts : ℕ
  pub expires_at : ℕ
  pub consumed_at : Option ℕ
  pub invalidated_at : Option ℕ

pub record Continuation : Type 0 where
  pub id : ℕ
  pub pending_registration_id : ℕ
  pub token_hash : Text
  pub expires_at : ℕ
  pub consumed_at : Option ℕ

pub record User : Type 0 where
  pub id : ℕ
  pub email : Text
  pub display_name : Text
  pub email_verified_at : ℕ

-- A row of `collections` with the system key `unsorted`.
pub record UnsortedCollection : Type 0 where
  pub id : ℕ
  pub user_id : ℕ

pub record PasswordCredential : Type 0 where
  pub user_id : ℕ
  pub password_hash : Text

-- What a provider said of the identity that signs in.
pub record ProviderIdentity : Type 0 where
  pub provider : Text
  pub provider_subject : Text
  pub email_snapshot : Option Text
  pub display_name_snapshot : Option Text

pub record PendingSocialIdentity : Type 0 where
  pub pending_registration_id : ℕ
  pub identity : ProviderIdentity

pub record AuthIdentity : Type 0 where
  pub user_id : ℕ
  pub identity : ProviderIdentity

pub record Store : Type 0 where
  pub registrations : List PendingRegistration
  pub requests : List VerificationRequest
  pub codes : List VerificationCode
  pub continuations : List Continuation
  pub users : List User
  pub unsorted : List UnsortedCollection
  pub credentials : List PasswordCredential
  pub pending_identities : List PendingSocialIdentity
  pub identities : List AuthIdentity

abbrev pub is_manual : RegistrationType → Bool
is_manual manual = true
is_manual social = false

abbrev pub is_social : RegistrationType → Bool
is_social manual = false
is_social social = true

abbrev pub is_pending : RegistrationStatus → Bool
is_pending pending = true
is_pending completed = false
is_pending expired = false

abbrev pub is_completed : RegistrationStatus → Bool
is_completed pending = false
is_completed completed = true
is_completed expired = false

-- The statuses of the partial unique index on the address.
abbrev pub is_live : RegistrationStatus → Bool
is_live pending = true
is_live completed = true
is_live expired = false

abbrev pub is_registration : Purpose → Bool
is_registration registration = true
is_registration registration_recovery = false

abbrev pub is_verified : RequestStatus → Bool
is_verified unverified = false
is_verified verified = true

-- The codes of the errors that this package returns; `unnamed` is the empty code.
pub data Code : Type 0 where
  unnamed : Code
  registration_already_pending : Code
  registration_already_completed : Code
  registration_already_exists : Code
  registration_identity_mismatch : Code
  active_verification_code_exists : Code
  verification_not_pending : Code
  registration_not_pending : Code
  registration_expired : Code
  registration_continuation_consumed : Code
  registration_continuation_expired : Code
  verification_resend_cooldown : Code
  invalid_verification_code : Code
  verification_code_attempts_exceeded : Code
  invalid_registration_type : Code
  user_already_exists : Code
  auth_identity_already_exists : Code

-- The errors of internal/apperror; the wait is in nanoseconds.
pub data RegistrationError : Type 0 where
  internal : RegistrationError
  not_found : RegistrationError
  conflict : Code → RegistrationError
  pin_rate_limit_unavailable : RegistrationError
  pin_rate_limit_exceeded : ℕ → RegistrationError
  pin_email_budget_unavailable : RegistrationError
  pin_email_budget_exceeded : ℕ → RegistrationError
  pin_email_delivery_failed : ℕ → RegistrationError
