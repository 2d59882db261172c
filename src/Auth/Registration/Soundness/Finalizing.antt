-- ===== src/Auth/Registration/Soundness/Finalizing.antt =====
-- internal/api/auth/registration/service.go: both finalizations of the service, against the
-- invariant.
use stash_it_backend.Base.{inl, inr, Result, ok, err, Result-cases, Bool-cases}
use stash_it_backend.Base.Text.{Text}
use stash_it_backend.Auth.Registration.{User, internal, Store, is_manual, is_social}
use stash_it_backend.Auth.Registration.Statements.{ContinuationRow}
use stash_it_backend.Auth.Registration.Finalization.{finalize_manual}
use stash_it_backend.Auth.Registration.Service.{usable_continuation}
use stash_it_backend.Auth.Registration.Accounts.{
  AccountError, password_work_unavailable, registration_failed, NewAccount, Hashing, finalization,
  no_capacity, hash_failed, hashed, finalize_manual_registration, finalize_social_account,
}
use stash_it_backend.Auth.Registration.Operations.{Circumstances}
use stash_it_backend.Auth.Registration.Soundness.Facts.{IsSound, Extends_refl, Follows}
use stash_it_backend.Auth.Registration.Soundness.Opening.{Follows_trans}
use stash_it_backend.Auth.Registration.Soundness.Finalization.{
  finalize_manual-Follows, finalize_social-Follows,
}
use stash_it_backend.Auth.Registration.Soundness.Reads.{HasTrusted, usable_continuation-has}

module _ (c : Circumstances) (t : HasTrusted c) (st : Store) (sound : IsSound st) where
  start : Follows st st
  start = (sound, Extends_refl st)

  later : Follows st (c.between st)
  later = t.between st sound

  pub finalize_manual_registration-Follows :
      (hash_token : Text → Text) (token : Text) (n : NewAccount) (h : Hashing)
      → Follows st
          (finalize_manual_registration hash_token c.meeting c.between c.now c.db_now token n h
            st).1
  unfolding finalize_manual_registration
  finalize_manual_registration-Follows hash_token token n h =
      elim (Result-cases (usable_continuation hash_token c.meeting c.now token st)) [
        | inr (e, q) ↦ rw (q, finalize_manual_registration) start
        | inl (x, q) ↦ elim (Bool-cases (is_manual x.registration.registration_type)) [
          | inr k ↦ rw (q, k, finalize_manual_registration) start
          | inl k ↦
              let (known, address) =
                usable_continuation-has hash_token c.meeting c.now token st x q in
              rw (q, k, finalize_manual_registration)
                (by_hash x h (λ password. Follows_trans st _ _ later (
                  finalize_manual-Follows c.meeting (c.between st) later.0 c.db_now
                    (finalization c.now n x) (later.1.registrations _ _ address)
                    (later.1.continuations _ _ known) password)))
        ]
      ]
    where
      by_hash :
          (x : ContinuationRow) (h : Hashing)
          → ((password : Text)
              → Follows st
                  (finalize_manual c.meeting c.db_now
                    (finalization c.now n x)
                    password
                    (c.between st)).1)
          → Follows st
              (elim h as (λ _. Result AccountError User × Store) [
                | no_capacity wait ↦ (err (password_work_unavailable wait), c.between st)
                | hash_failed ↦ (err (registration_failed internal), c.between st)
                | hashed password ↦
                    let (r, s) =
                      finalize_manual c.meeting c.db_now
                        (finalization c.now n x)
                        password
                        (c.between st) in
                    (elim r [ err e ↦ err (registration_failed e) | ok u ↦ ok u ], s)
              ]).1
      by_hash x (no_capacity wait) f = later
      by_hash x hash_failed f = later
      by_hash x (hashed password) f = f password

  pub finalize_social_account-Follows :
      (hash_token : Text → Text) (token : Text) (n : NewAccount)
      → Follows st
          (finalize_social_account hash_token c.meeting c.between c.now c.db_now token n st).1
  unfolding finalize_social_account
  finalize_social_account-Follows hash_token token n =
      elim (Result-cases (usable_continuation hash_token c.meeting c.now token st)) [
        | inr (e, q) ↦ rw (q, finalize_social_account) start
        | inl (x, q) ↦ elim (Bool-cases (is_social x.registration.registration_type)) [
          | inr k ↦ rw (q, k, finalize_social_account) start
          | inl k ↦
              let (known, address) =
                usable_continuation-has hash_token c.meeting c.now token st x q in
              rw (q, k, finalize_social_account)
                (Follows_trans st _ _ later (
                  finalize_social-Follows c.meeting (c.between st) later.0 c.db_now
                    (finalization c.now n x) (later.1.registrations _ _ address)
                    (later.1.continuations _ _ known)))
        ]
      ]
