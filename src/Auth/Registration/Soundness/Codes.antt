-- ===== src/Auth/Registration/Soundness/Codes.antt =====
-- internal/api/auth/registration/queries.sql: changes of continuations and codes, against the
-- invariant.
use stash_it_backend.Base.{
  Unique, ℕ, ◌≡◌, ◌≤◌, Bool, true, List, ◌∷◌, All-map, All-update, Unique-update, find-update,
  find-cons, count_where, count_where-update_le, update_where, is_some, arith,
}
use stash_it_backend.Auth.Registration.{VerificationCode, Continuation, Store}
use stash_it_backend.Auth.Registration.Statements.{is_unused}
use stash_it_backend.Auth.Registration.Soundness.Facts.{
  has_code, has_consumed, is_consumed, is_proven, Follows,
}

module _ (st s : Store) (v : Follows st s) where
  pub continuation-Follows :
      (c : Continuation)
      → is_proven s.requests c.pending_registration_id ≡ true
      → Follows st (record s { continuations = c ∷ s.continuations })
  continuation-Follows c proven = (
    record {
      registration_ids = v.0.registration_ids;
      request_ids = v.0.request_ids;
      code_ids = v.0.code_ids;
      unused = v.0.unused;
      evidence = v.0.evidence;
      addresses = v.0.addresses;
      continuations = (proven, v.0.continuations);
      accounts = v.0.accounts;
      collections = v.0.collections;
    },
    record {
      requests = v.1.requests;
      registrations = v.1.registrations;
      verified = v.1.verified;
      completed = v.1.completed;
      codes = v.1.codes;
      continuations = λ i j h. find-cons _ c s.continuations (v.1.continuations i j h);
    },
  )

  pub continuations-Follows :
      (p : Continuation → Bool) (f : Continuation → Continuation)
      → ((c : Continuation)
          → ((f c).id ≡ c.id) × ((f c).pending_registration_id ≡ c.pending_registration_id))
      → Follows st (record s { continuations = update_where p f s.continuations })
  continuations-Follows p f keys = (
    record {
      registration_ids = v.0.registration_ids;
      request_ids = v.0.request_ids;
      code_ids = v.0.code_ids;
      unused = v.0.unused;
      evidence = v.0.evidence;
      addresses = v.0.addresses;
      continuations =
          All-update _ _ p f s.continuations (λ c _ g. rw (keys c).1 g) (λ c _ g. g)
            v.0.continuations;
      accounts = v.0.accounts;
      collections = v.0.collections;
    },
    record {
      requests = v.1.requests;
      registrations = v.1.registrations;
      verified = v.1.verified;
      completed = v.1.completed;
      codes = v.1.codes;
      continuations = λ i j h.
          find-update _ p f s.continuations (λ c g k. ground (arith, keys c))
            (v.1.continuations i j h);
    },
  )

  pub codes-Follows :
      (ks : List VerificationCode)
      → Unique (λ c. c.id) ks
      → ((i : ℕ) → count_where (is_unused i) ks ≤ 1)
      → ((i : ℕ) → has_consumed s.codes i ≡ true → has_consumed ks i ≡ true)
      → ((i j : ℕ) → has_code i j s ≡ true → has_code i j (record s { codes = ks }) ≡ true)
      → Follows st (record s { codes = ks })
  codes-Follows ks ids free used kept = (
    record {
      registration_ids = v.0.registration_ids;
      request_ids = v.0.request_ids;
      code_ids = ids;
      unused = free;
      evidence = All-map s.requests (λ q g h. used q.id (g h)) v.0.evidence;
      addresses = v.0.addresses;
      continuations = v.0.continuations;
      accounts = v.0.accounts;
      collections = v.0.collections;
    },
    record {
      requests = v.1.requests;
      registrations = v.1.registrations;
      verified = v.1.verified;
      completed = v.1.completed;
      codes = λ i j h. kept i j (v.1.codes i j h);
      continuations = v.1.continuations;
    },
  )

  -- A change of some codes that keeps their keys, frees none and takes back no use.
  pub codes_updated-Follows :
      (p : VerificationCode → Bool) (f : VerificationCode → VerificationCode)
      → ((c : VerificationCode)
          → ((f c).id ≡ c.id) × ((f c).verification_request_id ≡ c.verification_request_id))
      → ((i : ℕ) (c : VerificationCode) → is_unused i (f c) ≡ true → is_unused i c ≡ true)
      → ((c : VerificationCode) → is_some c.consumed_at ≡ true → is_some (f c).consumed_at ≡ true)
      → Follows st (record s { codes = update_where p f s.codes })
  codes_updated-Follows p f keys free used =
      codes-Follows (update_where p f s.codes)
        (Unique-update _ p f s.codes (λ c. (keys c).0) v.0.code_ids)
        (λ i. omega (
          arith,
          count_where-update_le (is_unused i) p f s.codes (λ c _ h. free i c h),
          v.0.unused i,
        ))
        (λ i h. find-update (is_consumed i) p f s.codes (λ c g k. ground (arith, keys c, used c)) h)
        (λ i j h. find-update _ p f s.codes (λ c g k. ground (arith, keys c)) h)
