-- ===== src/Auth/Registration/Soundness/Verification.antt =====
-- internal/api/auth/registration/repository.go: codes and their verification, against the
-- invariant.
use stash_it_backend.Base.{
  ℕ, ◌≡◌, sym, subst, arith, true, not, inl, inr, leb, Result, Bool-cases, Result-cases,
}
use stash_it_backend.Base.Text.{Text}
use stash_it_backend.Database.{Connection}
use stash_it_backend.Database.Rules.{
  attempt-bind, read-bind, write-bind, update_one-bind, commit-bind, option-rule, if-rule,
  transaction-rule,
}
use stash_it_backend.Auth.Registration.{
  PendingRegistration, Store, RegistrationError, is_manual, is_pending, is_completed,
}
use stash_it_backend.Auth.Registration.Statements.{
  registration_with, increment_code_attempts, consume_verification_code, mark_request_verified,
}
use stash_it_backend.Auth.Registration.Meeting.{Meeting, counts_attempt}
use stash_it_backend.Auth.Registration.Verification.{
  issue_verification_code, count_attempt, complete_verification, replace_recovered,
  decide_recovered, complete_recovery,
}
use stash_it_backend.Auth.Registration.Soundness.Facts.{
  IsSound, Extends_refl, Follows, has_request, has_code,
}
use stash_it_backend.Auth.Registration.Soundness.Statements.{
  create_pending_registration-Follows, update_request_pin_issued-Follows,
  mark_request_verified-Follows, reassign_request-Follows, force_expire_manual-Follows,
  create_registration_continuation-Follows,
}
use stash_it_backend.Auth.Registration.Soundness.CodeStatements.{
  create_verification_code-Follows, invalidate_verification_code-Follows,
  consume_verification_code-Follows, increment_code_attempts-Follows,
}
use stash_it_backend.Auth.Registration.Soundness.Proofs.{
  consume_verification_code-consumed, mark_request_verified-proven, reassign_request-proven,
}

module _ (d : Meeting) (st : Store) (sound : IsSound st) where
  start : Follows st st
  start = (sound, Extends_refl st)

  abbrev Ends : {A : Type 0} → Result RegistrationError A × Connection Store → Type 0
  Ends x = Follows st x.1.durable

  pub issue_verification_code-Follows :
      (now new request : ℕ) (hash : Text) (expires_at : ℕ)
      → Follows st (issue_verification_code d now new request hash expires_at st).1
  unfolding issue_verification_code
  issue_verification_code-Follows now new request hash expires_at =
      transaction-rule (λ x. Follows st x.1) _ _ _ st (λ _. start)
        (λ _. write-bind Ends _ _ _ _ _ _ start (
          attempt-bind Ends _ _ _ _ _ (λ _. start)
            (λ c s e.
              let w1 = invalidate_verification_code-Follows st st start now request in
              let w2 = create_verification_code-Follows st _ w1 _ _ _ _ c s e in
              attempt-bind Ends _ _ _ _ _ (λ _. start)
                (λ q t e'.
                  let w3 = update_request_pin_issued-Follows st s w2 _ _ q t e' in
                  commit-bind Ends _ _ _ _ start w3 w3))))

  pub count_attempt-Follows : (i max : ℕ) → Follows st (count_attempt d i max st).1
  unfolding count_attempt
  count_attempt-Follows i max = elim (Result-cases (increment_code_attempts i max st)) [
    | inl (x, e) ↦
        let t = (count_attempt d i max st).1 in
        elim (Bool-cases (d.fails counts_attempt)) [
          | inl f ↦ let same : t ≡ st = ground arith in subst (Follows st) (sym same) start
          | inr f ↦
              let same : t ≡ x.1 = ground arith in
              subst (Follows st) (sym same)
                (increment_code_attempts-Follows st st start i max x.0 x.1 e)
        ]
    | inr (x, e) ↦
        let same : (count_attempt d i max st).1 ≡ st = ground arith in
        subst (Follows st) (sym same) start
  ]

  pub complete_verification-Follows :
      (now new code request subject : ℕ) (hash : Text) (expires_at : ℕ)
      → has_request request subject st ≡ true
      → has_code code request st ≡ true
      → Follows st (complete_verification d now new code request subject hash expires_at st).1
  unfolding complete_verification
  complete_verification-Follows now new code request subject hash expires_at known sent =
      let s1 = (consume_verification_code now code st).1 in
      let w1 = consume_verification_code-Follows st st start now code in
      transaction-rule (λ x. Follows st x.1) _ _ _ st (λ _. start)
        (λ _. update_one-bind Ends _ _ _ _ _ _ start start (λ used.
          let w2 =
            mark_request_verified-Follows st s1 w1 request
              (consume_verification_code-consumed st now code request sound.code_ids sent used) in
          update_one-bind Ends _ _ _ _ _ _ start start (λ one.
            attempt-bind Ends _ _ _ _ _ (λ _. start)
              (λ c t e.
                let proven =
                  mark_request_verified-proven s1 request subject w1.0.request_ids
                    (w1.1.requests request subject known) one in
                let w3 =
                  create_registration_continuation-Follows st _ w2 _ subject _ _ c t proven e in
                commit-bind Ends _ _ _ _ start w3 w3))))

  replace_recovered-Follows :
      (new new_registration request expires_at : ℕ) (hash : Text) (new_expires_at : ℕ)
      (old : PendingRegistration) (c : Connection Store)
      → Follows st c.durable
      → Follows st c.view
      → Ends (replace_recovered d new new_registration request expires_at hash new_expires_at old c)
  unfolding replace_recovered
  replace_recovered-Follows new new_registration request expires_at hash new_expires_at old c v w =
      update_one-bind Ends _ _ _ _ _ c v v (λ _.
        let w1 = force_expire_manual-Follows st c.view w old.id in
        attempt-bind Ends _ _ _ _ _ (λ _. v)
          (λ r s e.
            let w2 = create_pending_registration-Follows st _ w1 _ _ _ _ r s e in
            update_one-bind Ends _ _ _ _ _ _ v v (λ one.
              let w3 = reassign_request-Follows st s w2 request r.id in
              attempt-bind Ends _ _ _ _ _ (λ _. v)
                (λ x t e'.
                  let w4 =
                    create_registration_continuation-Follows st _ w3 _ r.id _ _ x t
                      (reassign_request-proven s request r.id one) e' in
                  commit-bind Ends _ _ _ _ v w4 w4))))

  decide_recovered-Follows :
      (now new new_registration request expires_at : ℕ) (hash : Text) (new_expires_at : ℕ)
      (old : PendingRegistration) (c : Connection Store)
      → Follows st c.durable
      → Follows st c.view
      → Ends
          (decide_recovered d now new new_registration request expires_at hash new_expires_at old c)
  unfolding decide_recovered
  decide_recovered-Follows now new new_registration request expires_at hash new_expires_at old c v
        w =
      if-rule Ends (is_completed old.status) _ _ c (λ _. v)
        (λ _.
          if-rule Ends (not (is_pending old.status)) _ _ c (λ _. v)
            (λ _.
              if-rule Ends (not (is_manual old.registration_type)) _ _ c (λ _. v)
                (λ _.
                  if-rule Ends (leb old.expires_at now) _ _ c (λ _. v)
                    (λ _.
                      replace_recovered-Follows new new_registration request expires_at hash
                        new_expires_at old c v w))))

  pub complete_recovery-Follows :
      (now new new_registration code request subject : ℕ) (hash : Text)
      (expires_at new_expires_at : ℕ)
      → has_code code request st ≡ true
      → Follows st
          (complete_recovery d now new new_registration code request subject hash expires_at
            new_expires_at st).1
  unfolding complete_recovery
  complete_recovery-Follows now new new_registration code request subject hash expires_at
        new_expires_at sent =
      let s1 = (consume_verification_code now code st).1 in
      let w1 = consume_verification_code-Follows st st start now code in
      let s2 = (mark_request_verified request s1).1 in
      transaction-rule (λ x. Follows st x.1) _ _ _ st (λ _. start)
        (λ _. update_one-bind Ends _ _ _ _ _ _ start start (λ used.
          let w2 =
            mark_request_verified-Follows st s1 w1 request
              (consume_verification_code-consumed st now code request sound.code_ids sent used) in
          update_one-bind Ends _ _ _ _ _ _ start start (λ _. read-bind Ends _ _ _ _ _ _ start (
            option-rule Ends (registration_with subject s2.registrations) _ _ _
              (λ r _.
                decide_recovered-Follows now new new_registration request expires_at hash
                  new_expires_at r _ start w2)
              (λ _. start)))))
