-- ===== src/Auth/Registration/Soundness/Tables.antt =====
-- internal/api/auth/registration/queries.sql: changes of registrations and requests, against the
-- invariant.
use stash_it_backend.Base.{
  ℕ, ◌≡◌, ◌≤◌, subst, Bool, true, false, List, ◌∷◌, All, All-map, All-update, Unique-update, ◌==◌,
  inl, inr, Bool-cases, find, find-none, count-of_find, find-update, find-cons, find_mono,
  count_where, count_where-update_le, update_where, is_some, arith,
}
use stash_it_backend.Base.Text.{Text, text_eq, text_eq_sound}
use stash_it_backend.Auth.Registration.{
  is_verified, PendingRegistration, VerificationRequest, User, Store, is_pending, is_registration,
}
use stash_it_backend.Auth.Registration.Statements.{is_taken, registration_with}
use stash_it_backend.Auth.Registration.Soundness.Facts.{
  HasEvidence, is_proof, is_proven, is_ground, is_grounded, Follows,
}

-- Proofs that stay proofs.
pub accounts-requests :
    (rs : List PendingRegistration) (qs qs' : List VerificationRequest) (us : List User)
    → ((i : ℕ) → is_proven qs i ≡ true → is_proven qs' i ≡ true)
    → All (λ u. is_grounded rs qs u ≡ true) us
    → All (λ u. is_grounded rs qs' u ≡ true) us
accounts-requests rs qs qs' us h =
    All-map us (λ u g. find_mono _ _ rs (λ r e. ground (arith, h r.id)) g)

-- A row that is not ground for anything disturbs no account.
pub accounts-registrations :
    (rs rs' : List PendingRegistration) (qs : List VerificationRequest) (us : List User)
    → ((e : Text)
        → is_some (find (is_ground qs e) rs) ≡ true
        → is_some (find (is_ground qs e) rs') ≡ true)
    → All (λ u. is_grounded rs qs u ≡ true) us
    → All (λ u. is_grounded rs' qs u ≡ true) us
accounts-registrations rs rs' qs us h = All-map us (λ u g. h u.email g)

one_more_address :
    (r : PendingRegistration) (rs : List PendingRegistration)
    → is_some (find (is_taken r.email) rs) ≡ false
    → ((e : Text) → count_where (is_taken e) rs ≤ 1)
    → (e : Text) → count_where (is_taken e) (r ∷ rs) ≤ 1
unfolding count_where
one_more_address r rs free h e = elim (Bool-cases (text_eq r.email e)) [
  | inr other ↦ ground (arith, other, h e)
  | inl same ↦
      let none_yet : count_where (is_taken e) rs ≡ 0 =
        subst (λ x. count_where (is_taken x) rs ≡ 0) (text_eq_sound r.email e same)
          (count-of_find (is_taken r.email) rs free) in
      ground (arith, none_yet)
]

module _ (st s : Store) (v : Follows st s) where
  pub registration-Follows :
      (r : PendingRegistration)
      → is_some (registration_with r.id s.registrations) ≡ false
      → is_some (find (is_taken r.email) s.registrations) ≡ false
      → Follows st (record s { registrations = r ∷ s.registrations })
  registration-Follows r fresh free = (
    record {
      registration_ids = (find-none _ s.registrations fresh, v.0.registration_ids);
      request_ids = v.0.request_ids;
      code_ids = v.0.code_ids;
      unused = v.0.unused;
      evidence = v.0.evidence;
      addresses = one_more_address r s.registrations free v.0.addresses;
      continuations = v.0.continuations;
      accounts =
          accounts-registrations s.registrations (r ∷ s.registrations) s.requests s.users
            (λ e g. find-cons _ r s.registrations g) v.0.accounts;
      collections = v.0.collections;
    },
    record {
      requests = v.1.requests;
      registrations = λ i e h. find-cons _ r s.registrations (v.1.registrations i e h);
      verified = v.1.verified;
      completed = λ i h. find-cons _ r s.registrations (v.1.completed i h);
      codes = v.1.codes;
      continuations = v.1.continuations;
    },
  )

  pub request-Follows :
      (q : VerificationRequest)
      → is_some (find (λ x. x.id == q.id) s.requests) ≡ false
      → is_verified q.status ≡ false
      → Follows st (record s { requests = q ∷ s.requests })
  request-Follows q fresh new = (
    record {
      registration_ids = v.0.registration_ids;
      request_ids = (find-none _ s.requests fresh, v.0.request_ids);
      code_ids = v.0.code_ids;
      unused = v.0.unused;
      evidence = ((λ h. absurd (off h)), v.0.evidence);
      addresses = v.0.addresses;
      continuations = All-map s.continuations (λ c g. find-cons _ q s.requests g) v.0.continuations;
      accounts =
          accounts-requests s.registrations s.requests (q ∷ s.requests) s.users
            (λ i g. find-cons _ q s.requests g) v.0.accounts;
      collections = v.0.collections;
    },
    record {
      requests = λ i j h. find-cons _ q s.requests (v.1.requests i j h);
      registrations = v.1.registrations;
      verified = λ i h. find-cons _ q s.requests (v.1.verified i h);
      completed = v.1.completed;
      codes = v.1.codes;
      continuations = v.1.continuations;
    },
  )
    where
      off : is_verified q.status ≡ true → ⊥
      off h = ground arith

  -- A change of some requests that keeps their ids, and what they prove.
  pub requests-Follows :
      (p : VerificationRequest → Bool) (f : VerificationRequest → VerificationRequest)
      → ((q : VerificationRequest) → (f q).id ≡ q.id)
      → ((i : ℕ) (q : VerificationRequest)
          → is_proof i q ≡ true
          → p q ≡ true
          → is_proof i (f q) ≡ true)
      → ((q : VerificationRequest)
          → is_registration q.purpose ≡ true
          → p q ≡ true
          → ((f q).subject_id ≡ q.subject_id) × (is_registration (f q).purpose ≡ true))
      → ((q : VerificationRequest) → p q ≡ true → HasEvidence s.codes q → HasEvidence s.codes (f q))
      → ((q : VerificationRequest)
          → p q ≡ true
          → is_verified q.status ≡ true
          → is_verified (f q).status ≡ true)
      → Follows st (record s { requests = update_where p f s.requests })
  requests-Follows p f ids proofs kept evidence stays =
      let proven = λ (i : ℕ) (g : is_proven s.requests i ≡ true).
        find-update (is_proof i) p f s.requests (proofs i) g in
      (
        record {
          registration_ids = v.0.registration_ids;
          request_ids = Unique-update _ p f s.requests ids v.0.request_ids;
          code_ids = v.0.code_ids;
          unused = v.0.unused;
          evidence =
              All-update (HasEvidence s.codes) (HasEvidence s.codes) p f s.requests evidence
                (λ q _ h. h) v.0.evidence;
          addresses = v.0.addresses;
          continuations =
              All-map s.continuations (λ c g. proven c.pending_registration_id g) v.0.continuations;
          accounts =
              accounts-requests s.registrations s.requests (update_where p f s.requests) s.users
                proven v.0.accounts;
          collections = v.0.collections;
        },
        record {
          requests = λ i j h.
              find-update _ p f s.requests (λ q g k. ground (arith, ids q, kept q))
                (v.1.requests i j h);
          registrations = v.1.registrations;
          verified = λ i h.
              find-update _ p f s.requests (λ q g k. ground (arith, ids q, stays q))
                (v.1.verified i h);
          completed = v.1.completed;
          codes = v.1.codes;
          continuations = v.1.continuations;
        },
      )

  -- A change of the status of some registrations, unless it ends a completed one or starts one that
  -- was over.
  pub statuses-Follows :
      (p : PendingRegistration → Bool) (f : PendingRegistration → PendingRegistration)
      → ((r : PendingRegistration) → ((f r).id ≡ r.id) × ((f r).email ≡ r.email))
      → ((r : PendingRegistration) → p r ≡ true → is_pending r.status ≡ true)
      → Follows st (record s { registrations = update_where p f s.registrations })
  statuses-Follows p f keys due = (
    record {
      registration_ids = Unique-update _ p f s.registrations (λ r. (keys r).0) v.0.registration_ids;
      request_ids = v.0.request_ids;
      code_ids = v.0.code_ids;
      unused = v.0.unused;
      evidence = v.0.evidence;
      addresses = λ e. omega (
        arith,
        count_where-update_le (is_taken e) p f s.registrations
            (λ r g h. ground (arith, due r g, keys r)),
        v.0.addresses e,
      );
      continuations = v.0.continuations;
      accounts =
          accounts-registrations s.registrations (update_where p f s.registrations) s.requests
            s.users (λ e g. find-update _ p f s.registrations (λ r h k. ground (arith, due r k)) g)
            v.0.accounts;
      collections = v.0.collections;
    },
    record {
      requests = v.1.requests;
      registrations = λ i e h.
          find-update _ p f s.registrations (λ r g k. ground (arith, keys r))
            (v.1.registrations i e h);
      verified = v.1.verified;
      completed = λ i h.
          find-update _ p f s.registrations (λ r g k. ground (arith, due r k)) (v.1.completed i h);
      codes = v.1.codes;
      continuations = v.1.continuations;
    },
  )
