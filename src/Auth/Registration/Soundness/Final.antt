-- ===== src/Auth/Registration/Soundness/Final.antt =====
-- internal/api/auth/registration/service.go: a verified request, and the calls after it.
use stash_it_backend.Base.{
  ℕ, ◌≡◌, refl, sym, subst, ◌∙◌, arith, true, false, List, All, find, find-pass, find-of_is_some,
  Unique-agree, Result, ok, err, Result-cases, inl, inr, some, none, ◌==◌,
}
use stash_it_backend.Base.Text.{Text}
use stash_it_backend.RateLimit.SortedSets.{SortedSets}
use stash_it_backend.Email.{PinEmailBudget}
use stash_it_backend.Auth.Registration.{VerificationRequest, Store, RegistrationError, is_verified}
use stash_it_backend.Auth.Registration.Statements.{VerificationRow, get_verification}
use stash_it_backend.Auth.Registration.Meeting.{Meeting}
use stash_it_backend.Auth.Registration.Verification.{read_verification}
use stash_it_backend.Auth.Registration.Service.{
  verify_registration, pending_verification, Completion, validate_verification_pending,
}
use stash_it_backend.Auth.Registration.Issuance.{Issue, issue_code, check_issuance}
use stash_it_backend.Auth.Registration.Operations.{Circumstances, Operation, perform_all}
use stash_it_backend.Auth.Registration.Soundness.Facts.{IsSound, has_verified}
use stash_it_backend.Auth.Registration.Soundness.Service.{perform_all-Trusted}
use stash_it_backend.Auth.Registration.Soundness.Verifying.{verify_registration-Follows}
use stash_it_backend.Auth.Registration.Soundness.Reads.{HasTrusted}
use stash_it_backend.Auth.Registration.Soundness.Verified.{verify_registration-verified}

-- A verified request is not pending, whoever reads it.
verified_is_not_pending :
    (d : Meeting) (now i : ℕ) (st : Store)
    → IsSound st
    → has_verified i st ≡ true
    → (v : VerificationRow) → pending_verification d now i st ≡ ok v
    → ⊥
unfolding pending_verification read_verification get_verification validate_verification_pending
verified_is_not_pending d now i st sound h v e =
    let at : find (λ q. q.id == i) st.requests ≡ some v.request = ground arith in
    let (q, hq) = find-of_is_some _ st.requests h in
    let same : q ≡ v.request =
      Unique-agree (λ q. q.id) _ _ st.requests v.request q sound.request_ids at hq
        (ground (arith, find-pass _ st.requests q hq, find-pass _ st.requests v.request at)) in
    let off : is_verified v.request.status ≡ false = ground arith in
    let on : is_verified v.request.status ≡ true =
      subst (λ (x : VerificationRequest). is_verified x.status ≡ true) same
        (ground (arith, find-pass _ st.requests q hq)) in
    absurd (on_and_off (sym on ∙ off))
  where
    on_and_off : true ≡ false → ⊥
    on_and_off e = cc

module _ (redis : SortedSets) (b : PinEmailBudget) (lower : Text → Text)
    (mac : Text → Text → List ℕ) (secret : Text) (d : Meeting) where
  check_issuance-pending :
      (now i : ℕ) (st : Store) (v : VerificationRow)
      → check_issuance redis b lower mac secret d now i st ≡ ok v
      → pending_verification d now i st ≡ ok v
  unfolding check_issuance pending_verification
  check_issuance-pending now i st v e = ground arith

module _ (redis : SortedSets) (b : PinEmailBudget) (lower hash_token : Text → Text)
    (mac : Text → Text → List ℕ) (secret : Text) where
  abbrev verify :
      Circumstances → Completion → ℕ → Text → Store → Result RegistrationError Text × Store
  verify c =
      verify_registration hash_token mac secret c.meeting c.between c.before_write c.now c.db_now

  -- Once a guess at the code of a request has answered with a token, the request is verified for
  -- good: after any calls of the service, with any faults and with what others commit, a further
  -- guess at it, the right code included, is refused and changes no row, and no further code is
  -- mailed for it.
  pub verified_once :
      (c c' : Circumstances) (new new' : Completion) (i : ℕ) (pin pin' token : Text)
      (os : List (Operation redis b lower hash_token mac secret)) (x : Issue) (r : redis.Store)
      (st : Store)
      → IsSound st
      → HasTrusted c
      → All (λ o. HasTrusted o.0) os
      → (verify c new i pin st).0 ≡ ok token
      → let s = perform_all redis b lower hash_token mac secret os (verify c new i pin st).1 in
        ((e : RegistrationError) × (verify c' new' i pin' s ≡ (err e, s)))
        × ((issue_code redis b lower mac secret c'.meeting c'.between x i s r).1.handed ≡ none)
  unfolding verify_registration issue_code
  verified_once c c' new new' i pin pin' token os x r st sound t ts answered =
      let s1 = (verify c new i pin st).1 in
      let v1 = verify_registration-Follows c t st sound hash_token mac secret new i pin in
      let v = perform_all-Trusted redis b lower hash_token mac secret os ts s1 v1.0 in
      let s = perform_all redis b lower hash_token mac secret os s1 in
      let known = v.1.verified i (
        verify_registration-verified hash_token mac secret c.meeting c.now c.db_now new c.between
          c.before_write i pin st token answered) in
      (
        elim (Result-cases (pending_verification c'.meeting c'.now i s)) [
          | inl (y, q) ↦ absurd (verified_is_not_pending c'.meeting c'.now i s v.0 known y q)
          | inr (e, q) ↦ (e, rw (q, verify_registration) refl)
        ],
        elim (Result-cases (check_issuance redis b lower mac secret c'.meeting x.now i s)) [
          | inl (y, q) ↦ absurd (
              verified_is_not_pending c'.meeting x.now i s v.0 known y
                (check_issuance-pending redis b lower mac secret c'.meeting x.now i s y q))
          | inr (e, q) ↦ rw (q, issue_code) refl
        ],
      )
