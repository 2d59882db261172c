-- ===== src/Auth/Registration/Soundness/Statements.antt =====
-- internal/api/auth/registration/queries.sql: the other statements, the creation of a user aside,
-- against the invariant.
use stash_it_backend.Base.{
  ℕ, ◌+◌, ◌≡◌, refl, sym, subst, Bool, true, List, ◌∷◌, some, ◌==◌, ==_iff, update_where, ok, arith,
}
use stash_it_backend.Base.Text.{Text}
use stash_it_backend.Auth.Registration.{
  RegistrationType, Purpose, PendingRegistration, VerificationRequest, Continuation,
  PasswordCredential, ProviderIdentity, PendingSocialIdentity, AuthIdentity, Store,
}
use stash_it_backend.Auth.Registration.Statements.{
  create_pending_registration, create_verification_request, update_request_pin_issued,
  is_open_request, mark_request_verified, reassign_request, expire_where, force_expire_social,
  force_expire_manual, expire_pending_registration, complete_pending_registration,
  create_registration_continuation, consume_registration_continuation,
  create_pending_social_identity,
}
use stash_it_backend.Auth.Registration.Soundness.Facts.{has_consumed, is_proven, Follows}
use stash_it_backend.Auth.Registration.Soundness.Codes.{continuation-Follows, continuations-Follows}
use stash_it_backend.Auth.Registration.Soundness.Tables.{
  registration-Follows, request-Follows, requests-Follows, statuses-Follows,
}

-- Tables that the invariant does not read.
abbrev pub other_tables :
    List PasswordCredential → List PendingSocialIdentity → List AuthIdentity → Store → Store
other_tables ps qs is s = record s { credentials = ps; pending_identities = qs; identities = is }

module _ (st s : Store) (v : Follows st s) where
  pub others-Follows :
      (ps : List PasswordCredential) (qs : List PendingSocialIdentity) (is : List AuthIdentity)
      → Follows st (other_tables ps qs is s)
  others-Follows ps qs is = (
    v.0,
    record {
      requests = v.1.requests;
      registrations = v.1.registrations;
      verified = v.1.verified;
      completed = v.1.completed;
      codes = v.1.codes;
      continuations = v.1.continuations;
    },
  )

  pub create_pending_registration-Follows :
      (new : ℕ) (email : Text) (kind : RegistrationType) (expires : ℕ) (r : PendingRegistration)
      (t : Store)
      → create_pending_registration new email kind expires s ≡ ok (r, t)
      → Follows st t
  unfolding create_pending_registration
  create_pending_registration-Follows new email kind expires r t e =
      let same : t ≡ record s { registrations = r ∷ s.registrations } = ground arith in
      subst (Follows st) (sym same) (registration-Follows st s v r (ground arith) (ground arith))

  pub create_verification_request-Follows :
      (new subject : ℕ) (purpose : Purpose) (q : VerificationRequest) (t : Store)
      → create_verification_request new subject purpose s ≡ ok (q, t)
      → Follows st t
  unfolding create_verification_request
  create_verification_request-Follows new subject purpose q t e =
      let same : t ≡ record s { requests = q ∷ s.requests } = ground arith in
      subst (Follows st) (sym same) (request-Follows st s v q (ground arith) (ground arith))

  pub update_request_pin_issued-Follows :
      (now i : ℕ) (q : VerificationRequest) (t : Store)
      → update_request_pin_issued now i s ≡ ok (q, t)
      → Follows st t
  unfolding update_request_pin_issued
  update_request_pin_issued-Follows now i q t e =
      let issued = λ (x : VerificationRequest). record x {
        pin_issued_count = x.pin_issued_count + 1;
        last_sent_at = some now;
      } in
      let same : t ≡ record s { requests = update_where (λ x. x.id == i) issued s.requests } =
        ground arith in
      subst (Follows st) (sym same) (
        requests-Follows st s v _ issued (λ x. refl) (λ j x h k. h) (λ x h k. (refl, h))
          (λ x k h. h) (λ x k h. h))

  pub mark_request_verified-Follows :
      (i : ℕ) → has_consumed s.codes i ≡ true → Follows st (mark_request_verified i s).1
  unfolding mark_request_verified
  mark_request_verified-Follows i used =
      requests-Follows st s v _ _ (λ x. refl) (λ j x h k. ground arith) (λ x h k. (refl, h))
        (λ x k h _. subst (λ j. has_consumed s.codes j ≡ true) (sym (open_id x k)) used)
        (λ x k h. refl)
    where
      open_id : (x : VerificationRequest) → is_open_request i x ≡ true → x.id ≡ i
      open_id x k = (==_iff x.id i).0 (ground arith)

  pub reassign_request-Follows : (i subject : ℕ) → Follows st (reassign_request i subject s).1
  unfolding reassign_request
  reassign_request-Follows i subject =
      requests-Follows st s v _ _ (λ x. refl) (λ j x h k. ground arith)
        (λ x h k. absurd (ground arith)) (λ x k h. h) (λ x k h. h)

  pub expire_where-Follows : (p : PendingRegistration → Bool) → Follows st (expire_where p s).1
  unfolding expire_where
  expire_where-Follows p = statuses-Follows st s v _ _ (λ r. (refl, refl)) (λ r h. ground arith)

  pub force_expire_social-Follows : (i : ℕ) → Follows st (force_expire_social i s).1
  unfolding force_expire_social
  force_expire_social-Follows i = expire_where-Follows _

  pub force_expire_manual-Follows : (i : ℕ) → Follows st (force_expire_manual i s).1
  unfolding force_expire_manual
  force_expire_manual-Follows i = expire_where-Follows _

  pub expire_pending_registration-Follows :
      (now i : ℕ) → Follows st (expire_pending_registration now i s).1
  unfolding expire_pending_registration
  expire_pending_registration-Follows now i = expire_where-Follows _

  pub complete_pending_registration-Follows :
      (now i : ℕ) → Follows st (complete_pending_registration now i s).1
  unfolding complete_pending_registration
  complete_pending_registration-Follows now i =
      statuses-Follows st s v _ _ (λ r. (refl, refl)) (λ r h. ground arith)

  pub create_registration_continuation-Follows :
      (new subject : ℕ) (hash : Text) (expires : ℕ) (c : Continuation) (t : Store)
      → is_proven s.requests subject ≡ true
      → create_registration_continuation new subject hash expires s ≡ ok (c, t)
      → Follows st t
  unfolding create_registration_continuation
  create_registration_continuation-Follows new subject hash expires c t proven e =
      let same : t ≡ record s { continuations = c ∷ s.continuations } = ground arith in
      let of : c.pending_registration_id ≡ subject = ground arith in
      subst (Follows st) (sym same) (continuation-Follows st s v c (rw of proven))

  pub consume_registration_continuation-Follows :
      (now i : ℕ) → Follows st (consume_registration_continuation now i s).1
  unfolding consume_registration_continuation
  consume_registration_continuation-Follows now i =
      continuations-Follows st s v _ _ (λ c. (refl, refl))

  pub create_pending_social_identity-Follows :
      (i : ℕ) (x : ProviderIdentity) (p : PendingSocialIdentity) (t : Store)
      → create_pending_social_identity i x s ≡ ok (p, t)
      → Follows st t
  unfolding create_pending_social_identity
  create_pending_social_identity-Follows i x p t e =
      let same : t ≡ other_tables s.credentials (p ∷ s.pending_identities) s.identities s =
        ground arith in
      subst (Follows st) (sym same) (others-Follows _ _ _)
