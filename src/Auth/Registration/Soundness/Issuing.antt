-- ===== src/Auth/Registration/Soundness/Issuing.antt =====
-- internal/api/auth/registration/service.go: `issueVerificationCode`, against the invariant.
use stash_it_backend.Base.{
  ℕ, ◌+◌, ◌≡◌, sym, subst, arith, List, Option-cases, inl, inr, Result-cases,
}
use stash_it_backend.Base.Text.{Text}
use stash_it_backend.RateLimit.SortedSets.{SortedSets}
use stash_it_backend.RateLimit.Sliding.{SlidingVerdict}
use stash_it_backend.Security.VerificationCode.{generate_code, hash_code}
use stash_it_backend.Email.{PinEmailBudget}
use stash_it_backend.Auth.Registration.{Store}
use stash_it_backend.Auth.Registration.Statements.{VerificationRow}
use stash_it_backend.Auth.Registration.Verification.{issue_verification_code}
use stash_it_backend.Auth.Registration.Service.{verification_code_expires_in}
use stash_it_backend.Auth.Registration.Issuance.{
  Issue, issue_code, check_issuance, reserve_both, store_and_send, hand_over,
}
use stash_it_backend.Auth.Registration.Operations.{Circumstances}
use stash_it_backend.Auth.Registration.Soundness.Facts.{IsSound, Extends_refl, Follows}
use stash_it_backend.Auth.Registration.Soundness.Opening.{Follows_trans}
use stash_it_backend.Auth.Registration.Soundness.Verification.{issue_verification_code-Follows}
use stash_it_backend.Auth.Registration.Soundness.Reads.{HasTrusted}

module _ (c : Circumstances) (t : HasTrusted c) (st : Store) (sound : IsSound st) where
  start : Follows st st
  start = (sound, Extends_refl st)

  later : Follows st (c.between st)
  later = t.between st sound

  module _ (redis : SortedSets) (b : PinEmailBudget) (lower : Text → Text)
      (mac : Text → Text → List ℕ) (secret : Text) where
    store_and_send-Follows :
        (x : Issue) (i : ℕ) (v : VerificationRow) (global : SlidingVerdict) (s : redis.Store)
        → Follows st
            (store_and_send redis b lower mac secret c.meeting x i v global
              (c.between st)
              s).1.tables
    unfolding store_and_send hand_over
    store_and_send-Follows x i v global s = elim (Option-cases (generate_code x.drawn_code)) [
      | inl e ↦ rw (e, store_and_send) later
      | inr (code, e) ↦
          let r =
            issue_verification_code c.meeting x.db_now x.new_code i (hash_code mac secret code)
              (x.now + verification_code_expires_in) (c.between st) in
          let same : (store_and_send redis b lower mac secret c.meeting x i v global (c.between st)
                s).1.tables
              ≡ r.1 =
            ground arith in
          subst (Follows st) (sym same) (
            Follows_trans st _ _ later
              (issue_verification_code-Follows c.meeting (c.between st) later.0 _ _ _ _ _))
    ]

    pub issue_code-Follows :
        (x : Issue) (i : ℕ) (s : redis.Store)
        → Follows st (issue_code redis b lower mac secret c.meeting c.between x i st s).1.tables
    unfolding issue_code
    issue_code-Follows x i s =
        elim (Result-cases (check_issuance redis b lower mac secret c.meeting x.now i st)) [
          | inr (e, q) ↦ rw (q, issue_code) start
          | inl (v, q) ↦
              elim (Result-cases (reserve_both redis b lower mac secret c.meeting x v s).0) [
                | inr (e, q') ↦ rw (q, q', issue_code) later
                | inl (global, q') ↦ rw (q, q', issue_code) (store_and_send-Follows x i v global _)
              ]
        ]
