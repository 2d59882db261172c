-- ===== src/Auth/Registration/Accounts.antt =====
-- internal/api/auth/registration/service.go: `FinalizeManualRegistration` and
-- `FinalizeSocialRegistration`. The outcome of the password hash is an argument.
use stash_it_backend.Base.{ℕ, Option, none, some, if◌then◌else◌, Result, ok, err}
use stash_it_backend.Base.Text.{Text}
use stash_it_backend.Auth.Session.{Metadata, Session}
use stash_it_backend.Auth.Session as Sessions
use stash_it_backend.Auth.Session.Repository as Rows
use stash_it_backend.Auth.Session.Service.{start_session, access_token_lifetime}
use stash_it_backend.Auth.Registration.{
  User, Store, is_manual, is_social, invalid_registration_type, RegistrationError, internal,
  conflict,
}
use stash_it_backend.Auth.Registration.Statements.{ContinuationRow}
use stash_it_backend.Auth.Registration.Meeting.{Meeting}
use stash_it_backend.Auth.Registration.Finalization.{Finalization, finalize_manual, finalize_social}
use stash_it_backend.Auth.Registration.Service.{usable_continuation}

-- How `PasswordHasher.Hash` ends: with a hash, without capacity within the wait, or otherwise.
pub data Hashing : Type 0 where
  hashed : Text → Hashing
  no_capacity : ℕ → Hashing
  hash_failed : Hashing

-- The errors of a finalization: of its own, of the password work, and of the session.
pub data AccountError : Type 0 where
  registration_failed : RegistrationError → AccountError
  password_work_unavailable : ℕ → AccountError
  session_failed : Rows.SessionError → AccountError

pub record NewAccount : Type 0 where
  pub display_name : Text
  pub new_user : ℕ
  pub new_collection : ℕ

abbrev pub finalization : ℕ → NewAccount → ContinuationRow → Finalization
finalization now n x = record {
  registration_id = x.continuation.pending_registration_id;
  continuation_id = x.continuation.id;
  email = x.registration.email;
  display_name = n.display_name;
  email_verified_at = now;
  new_user = n.new_user;
  new_collection = n.new_collection;
}

module _ (hash_token : Text → Text) (d : Meeting) (meanwhile : Store → Store) (now db_now : ℕ) where
  -- A manual registration: others commit while the password is hashed.
  unfoldable pub finalize_manual_registration :
      Text → NewAccount → Hashing → Store → Result AccountError User × Store
  finalize_manual_registration token n h st = elim (usable_continuation hash_token d now token st) [
    | err e ↦ (err (registration_failed e), st)
    | ok x ↦
        if is_manual x.registration.registration_type
        then elim h [
          | no_capacity wait ↦ (err (password_work_unavailable wait), meanwhile st)
          | hash_failed ↦ (err (registration_failed internal), meanwhile st)
          | hashed password ↦
              let (r, s) =
                finalize_manual d db_now (finalization now n x) password (meanwhile st) in
              (elim r [ err e ↦ err (registration_failed e) | ok u ↦ ok u ], s)
        ]
        else (err (registration_failed (conflict invalid_registration_type)), st)
  ]

  -- The account of a social registration.
  unfoldable pub finalize_social_account :
      Text → NewAccount → Store → Result AccountError User × Store
  finalize_social_account token n st = elim (usable_continuation hash_token d now token st) [
    | err e ↦ (err (registration_failed e), st)
    | ok x ↦
        if is_social x.registration.registration_type
        then (let (r, s) = finalize_social d db_now (finalization now n x) (meanwhile st) in
            (elim r [ err e ↦ err (registration_failed e) | ok u ↦ ok u ], s))
        else (err (registration_failed (conflict invalid_registration_type)), st)
  ]

-- `FinalizeSocialRegistrationResult`.
pub record SignedIn : Type 0 where
  pub user : User
  pub session : Session
  pub refresh_token : ℕ
  pub access_token : ℕ

-- What `CreateSession` and the access token generator draw and answer.
pub record SessionStart : Type 0 where
  pub faults : Rows.Faults
  pub new_session : ℕ
  pub new_token : ℕ
  pub drawn : Option ℕ
  pub metadata : Metadata

module _ (hash_token : Text → Text) (hash_refresh : ℕ → ℕ) (sign : ℕ → ℕ → ℕ → Option ℕ)
    (d : Meeting) (meanwhile : Store → Store) (now db_now : ℕ) where
  -- The session of the new user, and its tokens.
  unfoldable pub sign_in :
      SessionStart → User → Sessions.Store → Result AccountError SignedIn × Sessions.Store
  sign_in x u ss =
      let (r, ss') =
        start_session hash_refresh x.faults now db_now x.new_session x.new_token x.drawn u.id
          x.metadata ss in
      elim r [
        | err e ↦ (err (session_failed e), ss')
        | ok (session, token) ↦ elim (sign u.id session.id access_token_lifetime) [
          | none ↦ (err (registration_failed internal), ss')
          | some access ↦ (
            ok (record {
              user = u;
              session = session;
              refresh_token = token;
              access_token = access;
            }),
            ss',
          )
        ]
      ]

  -- `FinalizeSocialRegistration`, over the tables of both packages.
  unfoldable pub finalize_social_registration :
      Text
      → NewAccount
      → SessionStart
      → Store
      → Sessions.Store
      → Result AccountError SignedIn × Store × Sessions.Store
  unfolding finalize_social_account sign_in
  finalize_social_registration token n x st ss =
      let (r, st') = finalize_social_account hash_token d meanwhile now db_now token n st in
      elim r [ err e ↦ (err e, st', ss) | ok u ↦ let (r', ss') = sign_in x u ss in (r', st', ss') ]
