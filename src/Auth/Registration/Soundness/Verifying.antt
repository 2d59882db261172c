-- ===== src/Auth/Registration/Soundness/Verifying.antt =====
-- internal/api/auth/registration/service.go: `VerifyRegistration`, against the invariant.
use stash_it_backend.Base.{
  ℕ, ◌+◌, ◌≡◌, sym, subst, arith, true, List, Option-cases, inl, inr, Result-cases, Bool-cases,
}
use stash_it_backend.Base.Text.{Text}
use stash_it_backend.Security.VerificationCode.{verify_code}
use stash_it_backend.Auth.Registration.{Store, VerificationCode, is_registration}
use stash_it_backend.Auth.Registration.Statements.{VerificationRow}
use stash_it_backend.Auth.Registration.Verification.{
  read_active_code, count_attempt, complete_verification, complete_recovery,
}
use stash_it_backend.Auth.Registration.Service.{
  Completion, complete, count_wrong, pending_verification, verify_registration,
  registration_expires_in, registration_continuation_expires_in, verification_code_max_attempts,
}
use stash_it_backend.Auth.Registration.Operations.{Circumstances}
use stash_it_backend.Auth.Registration.Soundness.Facts.{
  IsSound, Extends_refl, Follows, has_request, has_code,
}
use stash_it_backend.Auth.Registration.Soundness.Opening.{Follows_trans}
use stash_it_backend.Auth.Registration.Soundness.Verification.{
  count_attempt-Follows, complete_verification-Follows, complete_recovery-Follows,
}
use stash_it_backend.Auth.Registration.Soundness.Reads.{
  HasTrusted, read_verification-has_request, pending_verification-row, read_verification-id,
  read_active_code-has_code,
}

module _ (c : Circumstances) (t : HasTrusted c) (st : Store) (sound : IsSound st) where
  start : Follows st st
  start = (sound, Extends_refl st)

  later : Follows st (c.between st)
  later = t.between st sound

  -- Others commit between the two reads and before the write.
  written : Follows st (c.before_write (c.between st))
  written = Follows_trans st _ _ later (t.before_write _ later.0)

  module _ (hash_token : Text → Text) (mac : Text → Text → List ℕ) (secret : Text)
      (new : Completion) where
    complete-Follows :
        (v : VerificationRow) (code : VerificationCode)
        → (is_registration v.request.purpose ≡ true
            → has_request v.request.id v.request.subject_id st ≡ true)
        → has_code code.id v.request.id (c.between st) ≡ true
        → Follows st
            (complete hash_token mac secret c.meeting c.now c.db_now new v code
              (c.before_write (c.between st))).1
    unfolding complete
    complete-Follows v code known sent =
        let s = c.before_write (c.between st) in
        let sent' = (t.before_write _ later.0).1.codes _ _ sent in
        elim (Option-cases new.drawn_token) [
          | inl e ↦ rw (e, complete) written
          | inr (token, e) ↦
              let expires_at = c.now + registration_continuation_expires_in in
              elim (Bool-cases (is_registration v.request.purpose)) [
                | inl k ↦
                    let r =
                      complete_verification c.meeting c.db_now new.new_continuation code.id
                        v.request.id v.request.subject_id (hash_token token) expires_at s in
                    let same : (complete hash_token mac secret c.meeting c.now c.db_now new v code
                          s).1
                        ≡ r.1 =
                      ground arith in
                    subst (Follows st) (sym same) (
                      Follows_trans st s _ written (
                        complete_verification-Follows c.meeting s written.0 _ _ _ _ _ _ _
                          (written.1.requests _ _ (known k)) sent'))
                | inr k ↦
                    let r =
                      complete_recovery c.meeting c.db_now new.new_continuation new.new_registration
                        code.id v.request.id v.request.subject_id (hash_token token) expires_at
                        (c.now + registration_expires_in) s in
                    let same : (complete hash_token mac secret c.meeting c.now c.db_now new v code
                          s).1
                        ≡ r.1 =
                      ground arith in
                    subst (Follows st) (sym same) (
                      Follows_trans st s _ written
                        (complete_recovery-Follows c.meeting s written.0 _ _ _ _ _ _ _ _ _ sent'))
              ]
        ]

    count_wrong-Follows :
        (code : VerificationCode)
        → Follows st
            (count_wrong hash_token mac secret c.meeting code (c.before_write (c.between st))).1
    unfolding count_wrong
    count_wrong-Follows code =
        let s = c.before_write (c.between st) in
        let r = count_attempt c.meeting code.id verification_code_max_attempts s in
        let same : (count_wrong hash_token mac secret c.meeting code s).1 ≡ r.1 = ground arith in
        subst (Follows st) (sym same)
          (Follows_trans st s _ written (count_attempt-Follows c.meeting s written.0 _ _))

    pub verify_registration-Follows :
        (i : ℕ) (pin : Text)
        → Follows st
            (verify_registration hash_token mac secret c.meeting c.between c.before_write c.now
              c.db_now new i pin st).1
    unfolding verify_registration
    verify_registration-Follows i pin =
        elim (Result-cases (pending_verification c.meeting c.now i st)) [
          | inr (e, q) ↦ rw (q, verify_registration) start
          | inl (v, q) ↦
              elim (Result-cases (
                read_active_code c.meeting c.db_now i verification_code_max_attempts
                  (c.between st))) [
                    | inr (e, q') ↦ rw (q, q', verify_registration) later
                    | inl (code, q') ↦
                        elim (Bool-cases (verify_code mac secret pin code.code_hash)) [
                          | inl k ↦
                              let row = pending_verification-row c.meeting c.now i st v q in
                              let sent : has_code code.id v.request.id (c.between st) ≡ true =
                                subst (λ j. has_code code.id j (c.between st) ≡ true)
                                  (sym (read_verification-id c.meeting i st v row))
                                  (read_active_code-has_code _ _ i _ (c.between st) code q') in
                              rw (q, q', k, verify_registration)
                                (complete-Follows v code
                                  (read_verification-has_request c.meeting i st v row) sent)
                          | inr k ↦ rw (q, q', k, verify_registration) (count_wrong-Follows code)
                        ]
                  ]
        ]
