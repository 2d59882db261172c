-- ===== src/Auth/Registration/Soundness/Verified.antt =====
-- internal/api/auth/registration/service.go: the request of an answered guess.
use stash_it_backend.Base.{
  ℕ, ◌≡◌, subst, arith, true, List, find-pass, find-of_is_some, find-updated, find-update, leb, ◌+◌,
  find-of_count, Option-cases, Bool-cases, Result, ok, err, Result-cases, inl, inr, not,
}
use stash_it_backend.Base.Text.{Text}
use stash_it_backend.Database.{Connection}
use stash_it_backend.Database.Rules.{
  attempt-bind, read-bind, update_one-bind, commit-bind, option-rule, if-rule, transaction-rule,
}
use stash_it_backend.Security.VerificationCode.{verify_code}
use stash_it_backend.Auth.Registration.{
  VerificationCode, Store, RegistrationError, internal, is_registration, is_completed, is_pending,
  is_manual, PendingRegistration,
}
use stash_it_backend.Auth.Registration.Statements.{
  registration_with, reassign_request, create_pending_registration, force_expire_manual,
  expire_where, consume_verification_code, VerificationRow, create_registration_continuation,
  mark_request_verified, is_open_request,
}
use stash_it_backend.Auth.Registration.Meeting.{Meeting}
use stash_it_backend.Auth.Registration.Verification.{
  read_active_code, count_attempt, complete_verification, complete_recovery, replace_recovered,
  decide_recovered,
}
use stash_it_backend.Auth.Registration.Service.{
  verification_code_max_attempts, verify_registration, pending_verification, complete, count_wrong,
  registration_expires_in, registration_continuation_expires_in, Completion,
}
use stash_it_backend.Auth.Registration.Soundness.Facts.{has_verified}
use stash_it_backend.Auth.Registration.Soundness.Reads.{
  read_verification-id, pending_verification-row,
}

module _ (d : Meeting) (st : Store) (request : ℕ) where
  -- What is shown of an answered call: its request is verified.
  abbrev Verifies : {A : Type 0} → Result RegistrationError A × Store → Type 0
  Verifies {A} x = (a : A) → x.0 ≡ ok a → has_verified request x.1 ≡ true

  abbrev Ends : {A : Type 0} → Result RegistrationError A × Connection Store → Type 0
  Ends {A} x = (a : A) → x.0 ≡ ok a → has_verified request x.1.durable ≡ true

  refused : {A P : Type 0} (e : RegistrationError) (a : A) → err e ≡ ok a → P
  refused e a h = cc

  marked :
      (s : Store)
      → (mark_request_verified request s).0 ≡ 1
      → has_verified request (mark_request_verified request s).1 ≡ true
  unfolding mark_request_verified
  marked s one =
      let (y, hy) =
        find-of_is_some (is_open_request request) s.requests
          (find-of_count (is_open_request request) s.requests (omega (arith, one))) in
      let marked_y = find-pass (is_open_request request) s.requests y hy in
      find-updated _ (is_open_request request) _ s.requests y hy (ground arith)

  reassign_request-verified :
      (s : Store) (subject : ℕ)
      → has_verified request s ≡ true
      → has_verified request (reassign_request request subject s).1 ≡ true
  unfolding reassign_request
  reassign_request-verified s subject h = find-update _ _ _ s.requests (λ q g k. g) h

  complete_verification-verified :
      (now new code subject : ℕ) (hash : Text) (expires_at : ℕ)
      → Verifies (complete_verification d now new code request subject hash expires_at st)
  unfolding complete_verification create_registration_continuation
  complete_verification-verified now new code subject hash expires_at =
      transaction-rule Verifies _ _ _ st (λ _. refused _)
        (λ _. update_one-bind Ends _ _ _ _ _ _ (refused _) (refused _) (λ used.
          update_one-bind Ends _ _ _ _ _ _ (refused _) (refused _) (λ one.
            attempt-bind Ends _ _ _ _ _ (λ e. refused e)
              (λ c t e.
                let kept : has_verified request t ≡ true = ground (arith, marked _ one) in
                commit-bind Ends _ _ _ _ (refused _) (refused _) (λ _ _. kept)))))

  -- The same for a recovery, which also moves the request to its new registration.
  replaced-verified :
      (new new_registration expires_at : ℕ) (hash : Text) (new_expires_at : ℕ)
      (old : PendingRegistration) (c : Connection Store)
      → has_verified request c.view ≡ true
      → Ends (replace_recovered d new new_registration request expires_at hash new_expires_at old c)
  unfolding replace_recovered create_pending_registration create_registration_continuation
      force_expire_manual expire_where
  replaced-verified new new_registration expires_at hash new_expires_at old c h =
      update_one-bind Ends _ _ _ _ _ c (refused _) (refused _) (λ _.
        attempt-bind Ends _ _ _ _ _ (λ e. refused e)
          (λ r s e.
            let kept : has_verified request s ≡ true = ground (arith, h) in
            update_one-bind Ends _ _ _ _ _ _ (refused _) (refused _) (λ one.
              let moved = reassign_request-verified s r.id kept in
              attempt-bind Ends _ _ _ _ _ (λ e. refused e)
                (λ x t e'.
                  let kept' : has_verified request t ≡ true = ground (arith, moved) in
                  commit-bind Ends _ _ _ _ (refused _) (refused _) (λ _ _. kept')))))

  complete_recovery-verified :
      (now new new_registration code subject : ℕ) (hash : Text) (expires_at new_expires_at : ℕ)
      → Verifies (
          complete_recovery d now new new_registration code request subject hash expires_at
            new_expires_at st)
  unfolding complete_recovery decide_recovered
  complete_recovery-verified now new new_registration code subject hash expires_at new_expires_at =
      let s1 = (consume_verification_code now code st).1 in
      let s2 = (mark_request_verified request s1).1 in
      transaction-rule Verifies _ _ _ st (λ _. refused _)
        (λ _. update_one-bind Ends _ _ _ _ _ _ (refused _) (refused _) (λ used.
          update_one-bind Ends _ _ _ _ _ _ (refused _) (refused _) (λ one.
            read-bind Ends _ _ _ _ _ _ (refused _) (
              option-rule Ends (registration_with subject s2.registrations) _ _ _
                (λ r _.
                  let replace =
                    replaced-verified new new_registration expires_at hash new_expires_at r _
                      (marked s1 one) in
                  if-rule Ends (is_completed r.status) _ _ _ (λ _. refused _)
                    (λ _.
                      if-rule Ends (not (is_pending r.status)) _ _ _ (λ _. refused _)
                        (λ _.
                          if-rule Ends (not (is_manual r.registration_type)) _ _ _ (λ _. refused _)
                            (λ _.
                              if-rule Ends (leb r.expires_at now) _ _ _ (λ _. refused _)
                                (λ _. replace)))))
                (λ _. refused _)))))

module _ (hash_token : Text → Text) (mac : Text → Text → List ℕ) (secret : Text) (d : Meeting)
    (now db_now : ℕ) (new : Completion) where
  complete-verified :
      (v : VerificationRow) (code : VerificationCode) (s : Store) (token : Text)
      → (complete hash_token mac secret d now db_now new v code s).0 ≡ ok token
      → has_verified v.request.id (complete hash_token mac secret d now db_now new v code s).1
        ≡ true
  unfolding complete
  complete-verified v code s token h = elim (Option-cases new.drawn_token) [
    | inl e ↦ absurd (refused_by internal token (rw (e, complete) at h))
    | inr (t, e) ↦
        let expires_at = now + registration_continuation_expires_in in
        elim (Bool-cases (is_registration v.request.purpose)) [
          | inl k ↦
              let r =
                complete_verification d db_now new.new_continuation code.id v.request.id
                  v.request.subject_id (hash_token t) expires_at s in
              elim (Result-cases r.0) [
                | inl (a, q) ↦
                    let kept = complete_verification-verified d s v.request.id _ _ _ _ _ _ a q in
                    ground (arith, kept)
                | inr (x, q) ↦ absurd (refused_by x token (ground arith))
              ]
          | inr k ↦
              let r =
                complete_recovery d db_now new.new_continuation new.new_registration code.id
                  v.request.id v.request.subject_id (hash_token t) expires_at
                  (now + registration_expires_in) s in
              elim (Result-cases r.0) [
                | inl (a, q) ↦
                    let kept = complete_recovery-verified d s v.request.id _ _ _ _ _ _ _ _ a q in
                    ground (arith, kept)
                | inr (x, q) ↦ absurd (refused_by x token (ground arith))
              ]
        ]
  ]
    where
      refused_by : (e : RegistrationError) (a : Text) → err e ≡ ok a → ⊥
      refused_by e a q = cc

  wrong :
      (code : VerificationCode) (s : Store) (token : Text)
      → (count_wrong hash_token mac secret d code s).0 ≡ ok token
      → ⊥
  unfolding count_wrong
  wrong code s token h =
      elim (Result-cases (count_attempt d code.id verification_code_max_attempts s).0) [
        | inl (n, q) ↦ absurd (off (rw (q, count_wrong) at h))
        | inr (e, q) ↦ absurd (off (rw (q, count_wrong) at h))
      ]
    where
      off : {e : RegistrationError} {a : Text} → err e ≡ ok a → ⊥
      off q = cc

  pub verify_registration-verified :
      (before_code before_write : Store → Store) (i : ℕ) (pin : Text) (st : Store) (token : Text)
      → (verify_registration hash_token mac secret d before_code before_write now db_now new i pin
          st).0
        ≡ ok token
      → has_verified i
          (verify_registration hash_token mac secret d before_code before_write now db_now new i pin
            st).1
        ≡ true
  unfolding verify_registration
  verify_registration-verified before_code before_write i pin st token h =
      elim (Result-cases (pending_verification d now i st)) [
        | inr (e, q) ↦ absurd (refused_by (rw (q, verify_registration) at h))
        | inl (v, q) ↦
            let named : v.request.id ≡ i =
              read_verification-id d i st v (pending_verification-row d now i st v q) in
            let s = before_write (before_code st) in
            elim (Result-cases
              (read_active_code d db_now i verification_code_max_attempts (before_code st))) [
                | inr (e, q') ↦ absurd (refused_by (rw (q, q', verify_registration) at h))
                | inl (code, q') ↦ elim (Bool-cases (verify_code mac secret pin code.code_hash)) [
                  | inl k ↦
                      rw (q, q', k, verify_registration)
                        (subst
                          (λ j.
                            has_verified j
                              (complete hash_token mac secret d now db_now new v code s).1
                            ≡ true)
                          named
                          (complete-verified v code s token
                            (rw (q, q', k, verify_registration) at h)))
                  | inr k ↦ absurd (wrong code s token (rw (q, q', k, verify_registration) at h))
                ]
              ]
      ]
    where
      refused_by : {e : RegistrationError} {a : Text} → err e ≡ ok a → ⊥
      refused_by q = cc
