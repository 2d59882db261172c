-- ===== src/Auth/Registration/Soundness/Service.antt =====
-- internal/api/auth/registration/service.go: the calls of the service in any order, against the
-- invariant.
use stash_it_backend.Base.{ℕ, List, [], ◌∷◌, All}
use stash_it_backend.Base.Text.{Text}
use stash_it_backend.RateLimit.SortedSets.{SortedSets}
use stash_it_backend.Email.{PinEmailBudget}
use stash_it_backend.Auth.Registration.{Store}
use stash_it_backend.Auth.Registration.Operations.{
  registers, recovers, registers_social, issues, verifies, finalizes, finalizes_social, Operation,
  perform, perform_all,
}
use stash_it_backend.Auth.Registration.Soundness.Facts.{Extends_refl, IsSound}
use stash_it_backend.Auth.Registration.Soundness.Opening.{Follows_trans, Trusted}
use stash_it_backend.Auth.Registration.Soundness.Reads.{HasTrusted}
use stash_it_backend.Auth.Registration.Soundness.Registering.{
  register_manual-Follows, initiate_recovery-Follows, register_social-Follows,
}
use stash_it_backend.Auth.Registration.Soundness.Verifying.{verify_registration-Follows}
use stash_it_backend.Auth.Registration.Soundness.Issuing.{issue_code-Follows}
use stash_it_backend.Auth.Registration.Soundness.Finalizing.{
  finalize_manual_registration-Follows, finalize_social_account-Follows,
}

module _ (redis : SortedSets) (b : PinEmailBudget) (lower hash_token : Text → Text)
    (mac : Text → Text → List ℕ) (secret : Text) where
  -- A call of the service is itself a change that others may see at any moment, if those that it
  -- meets are.
  pub perform-Trusted :
      (o : Operation redis b lower hash_token mac secret)
      → HasTrusted o.0
      → Trusted (perform redis b lower hash_token mac secret o)
  unfolding perform
  perform-Trusted (c, registers new new' address) t st sound =
      register_manual-Follows c t st sound lower new new' address
  perform-Trusted (c, recovers new address) t st sound =
      initiate_recovery-Follows c t st sound lower new address
  perform-Trusted (c, registers_social new new' address i) t st sound =
      register_social-Follows c t st sound lower new new' address i
  perform-Trusted (c, issues x i s) t st sound =
      issue_code-Follows c t st sound redis b lower mac secret x i s
  perform-Trusted (c, verifies new i pin) t st sound =
      verify_registration-Follows c t st sound hash_token mac secret new i pin
  perform-Trusted (c, finalizes token n h) t st sound =
      finalize_manual_registration-Follows c t st sound hash_token token n h
  perform-Trusted (c, finalizes_social token n) t st sound =
      finalize_social_account-Follows c t st sound hash_token token n

  pub perform_all-Trusted :
      (os : List (Operation redis b lower hash_token mac secret))
      → All (λ o. HasTrusted o.0) os
      → Trusted (perform_all redis b lower hash_token mac secret os)
  unfolding perform_all
  perform_all-Trusted [] t st sound = (sound, Extends_refl st)
  perform_all-Trusted (o ∷ os) t st sound =
      let v = perform-Trusted o t.0 st sound in
      Follows_trans st _ _ v (perform_all-Trusted os t.1 _ v.0)

  -- Whatever calls are made in whatever order, with whatever faults, and whatever others commit
  -- meanwhile that keeps the invariant: each user that is ever stored has exactly one Unsorted
  -- collection and a completed registration of the same address whose opening request was verified;
  -- each continuation belongs to a registration that was verified; each verified request has a code
  -- that was used; no request has two codes that can still be used; and no address has two
  -- registrations that are pending or completed.
  pub perform_all-IsSound :
      (os : List (Operation redis b lower hash_token mac secret)) (st : Store)
      → All (λ o. HasTrusted o.0) os
      → IsSound st
      → IsSound (perform_all redis b lower hash_token mac secret os st)
  perform_all-IsSound os st t sound = (perform_all-Trusted os t st sound).0
