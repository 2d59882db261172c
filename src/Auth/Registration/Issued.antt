-- ===== src/Auth/Registration/Issued.antt =====
-- internal/api/auth/registration/service.go: what `issueVerificationCode` leaves behind.
use stash_it_backend.Base.{
  ℕ, ◌+◌, ◌<◌, ◌≡◌, sym, subst, arith, List, none, some, Option-cases, inl, inr, Result, ok, err,
  Result-cases, find, ==_refl,
}
use stash_it_backend.Base.Text.{Text}
use stash_it_backend.Database.{Connection}
use stash_it_backend.Database.Rules.{attempt-bind, write-bind, commit-bind, transaction-rule}
use stash_it_backend.RateLimit.SortedSets.{SortedSets}
use stash_it_backend.RateLimit.Sliding.{SlidingVerdict}
use stash_it_backend.Email.{PinEmailBudget}
use stash_it_backend.Security.VerificationCode.{generate_code, hash_code}
use stash_it_backend.Auth.Registration.{
  VerificationCode, Store, RegistrationError, VerificationRequest,
}
use stash_it_backend.Auth.Registration.Statements.{
  VerificationRow, create_verification_code, update_request_pin_issued,
  get_active_verification_code,
}
use stash_it_backend.Auth.Registration.Meeting.{Meeting}
use stash_it_backend.Auth.Registration.Verification.{issue_verification_code}
use stash_it_backend.Auth.Registration.Service.{
  verification_code_expires_in, verification_code_max_attempts,
}
use stash_it_backend.Auth.Registration.Issuance.{
  Issue, Message, new_verification_pin_email, hand_over, store_and_send, issue_code, check_issuance,
  reserve_both,
}

-- The code that the tables hold as the active one of a request is this.
abbrev pub IsCurrent : ℕ → ℕ → Text → ℕ → Store → Type 0
IsCurrent i new hash expires_at st =
    (t : ℕ)
    → t < expires_at
    → (c : VerificationCode) × (get_active_verification_code t i verification_code_max_attempts st
        ≡ ok c)
      × (c.id ≡ new)
      × (c.code_hash ≡ hash)
      × (c.attempts ≡ 0)

module _ (d : Meeting) (now new request : ℕ) (hash : Text) (expires_at : ℕ) where
  abbrev Ends : Result RegistrationError VerificationRequest × Connection Store → Type 0
  Ends x =
      (q : VerificationRequest) → x.0 ≡ ok q → IsCurrent request new hash expires_at x.1.durable

  refused : {A P : Type 0} (e : RegistrationError) (a : A) → err e ≡ ok a → P
  refused e a h = cc

  created :
      (s t u : Store) (c : VerificationCode) (q : VerificationRequest)
      → create_verification_code new request hash expires_at s ≡ ok (c, t)
      → update_request_pin_issued now request t ≡ ok (q, u)
      → IsCurrent request new hash expires_at u
  unfolding create_verification_code update_request_pin_issued get_active_verification_code find
  created s t u c q e e' at later =
      (c, ground (arith, ==_refl request), ground arith, ground arith, ground arith)

  issue_verification_code-IsCurrent :
      (st : Store) (q : VerificationRequest)
      → (issue_verification_code d now new request hash expires_at st).0 ≡ ok q
      → IsCurrent request new hash expires_at
          (issue_verification_code d now new request hash expires_at st).1
  unfolding issue_verification_code
  issue_verification_code-IsCurrent st =
      transaction-rule
        (λ (x : Result RegistrationError VerificationRequest × Store).
          (q : VerificationRequest) → x.0 ≡ ok q → IsCurrent request new hash expires_at x.1)
        _ _ _ st (λ _. refused _)
        (λ _. write-bind Ends _ _ _ _ _ _ (refused _) (
          attempt-bind Ends _ _ _ _ _ (λ e. refused e)
            (λ c s e.
              attempt-bind Ends _ _ _ _ _ (λ e. refused e)
                (λ q t e'.
                  commit-bind Ends _ _ _ _ (refused _) (refused _)
                    (λ _ _. created _ s t c q e e')))))

module _ (redis : SortedSets) (b : PinEmailBudget) (lower : Text → Text)
    (mac : Text → Text → List ℕ) (secret : Text) (d : Meeting) where
  -- A message is a verification mail to an address, with the code that is now the active one.
  abbrev pub IsMailed : Issue → ℕ → Text → Message → Store → Type 0
  IsMailed x i address m st =
      (pin : Text) × (m ≡ new_verification_pin_email address pin)
      × IsCurrent i x.new_code (hash_code mac secret pin) (x.now + verification_code_expires_in) st

  store_and_send-IsMailed :
      (x : Issue) (i : ℕ) (v : VerificationRow) (global : SlidingVerdict) (st : Store)
      (s : redis.Store) (m : Message)
      → (store_and_send redis b lower mac secret d x i v global st s).1.handed ≡ some m
      → IsMailed x i v.registration.email m
          (store_and_send redis b lower mac secret d x i v global st s).1.tables
  unfolding store_and_send hand_over
  store_and_send-IsMailed x i v global st s m h = elim (Option-cases (generate_code x.drawn_code)) [
    | inl e ↦ absurd (none_handed m (rw (e, store_and_send) at h))
    | inr (pin, e) ↦
        let r =
          issue_verification_code d x.db_now x.new_code i (hash_code mac secret pin)
            (x.now + verification_code_expires_in) st in
        elim (Result-cases r.0) [
          | inl (q, k) ↦
              let stored =
                issue_verification_code-IsCurrent d x.db_now x.new_code i (hash_code mac secret pin)
                  (x.now + verification_code_expires_in) st q k in
              let same : (store_and_send redis b lower mac secret d x i v global st s).1.tables
                  ≡ r.1 =
                ground arith in
              (
                pin,
                ground arith,
                subst
                    (IsCurrent i x.new_code (hash_code mac secret pin)
                      (x.now + verification_code_expires_in))
                    (sym same) stored,
              )
          | inr (f, k) ↦ absurd (none_handed m (ground arith))
        ]
  ]
    where
      none_handed : (m : Message) → none ≡ some m → ⊥
      none_handed m e = cc

  -- Whatever fails and whatever others commit meanwhile, a mail is handed to the sender only when
  -- its code is stored: it goes to the address of the registration that was read, and the code in
  -- it is the request's one active code, with no attempts counted, until it expires.
  pub issue_code-IsMailed :
      (meanwhile : Store → Store) (x : Issue) (i : ℕ) (st : Store) (s : redis.Store) (m : Message)
      → (issue_code redis b lower mac secret d meanwhile x i st s).1.handed ≡ some m
      → (v : VerificationRow) × (check_issuance redis b lower mac secret d x.now i st ≡ ok v)
        × IsMailed x i v.registration.email m
            (issue_code redis b lower mac secret d meanwhile x i st s).1.tables
  unfolding issue_code
  issue_code-IsMailed meanwhile x i st s m h =
      elim (Result-cases (check_issuance redis b lower mac secret d x.now i st)) [
        | inr (e, q) ↦ absurd (none_handed m (rw (q, issue_code) at h))
        | inl (v, q) ↦ elim (Result-cases (reserve_both redis b lower mac secret d x v s).0) [
          | inr (e, q') ↦ absurd (none_handed m (rw (q, q', issue_code) at h))
          | inl (global, q') ↦ (
            v,
            q,
            rw (q, q', issue_code)
                (store_and_send-IsMailed x i v global (meanwhile st) _ m
                  (rw (q, q', issue_code) at h)),
          )
        ]
      ]
    where
      none_handed : (m : Message) → none ≡ some m → ⊥
      none_handed m e = cc
