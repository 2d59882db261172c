-- ===== src/Auth/Registration/Soundness/Facts.antt =====
-- internal/api/auth/registration: the invariant of the tables, and what a later state keeps.
use stash_it_backend.Base.{
  ℕ, ◌≡◌, ◌≤◌, Bool, true, ◌&&◌, List, All, Unique, ◌==◌, find, count_where, is_some,
}
use stash_it_backend.Base.Text.{Text, text_eq}
use stash_it_backend.Auth.Registration.{
  PendingRegistration, VerificationRequest, VerificationCode, Continuation, User,
  UnsortedCollection, Store, is_completed, is_registration, is_verified,
}
use stash_it_backend.Auth.Registration.Statements.{is_taken, is_unused}

-- The request that opened the registration `i`, once its code was verified.
abbrev pub is_proof : ℕ → VerificationRequest → Bool
is_proof i q = (q.subject_id == i) && (is_registration q.purpose && is_verified q.status)

abbrev pub is_proven : List VerificationRequest → ℕ → Bool
is_proven qs i = is_some (find (is_proof i) qs)

-- A completed registration of the address, with its proof.
abbrev pub is_ground : List VerificationRequest → Text → PendingRegistration → Bool
is_ground qs email r = text_eq r.email email && (is_completed r.status && is_proven qs r.id)

abbrev pub is_grounded : List PendingRegistration → List VerificationRequest → User → Bool
is_grounded rs qs u = is_some (find (is_ground qs u.email) rs)

abbrev pub HasUnsorted : List UnsortedCollection → User → Type 0
HasUnsorted cs u = count_where (λ c. c.user_id == u.id) cs ≡ 1

-- A code of the request `i` that was used.
abbrev pub is_consumed : ℕ → VerificationCode → Bool
is_consumed i c = (c.verification_request_id == i) && is_some c.consumed_at

abbrev pub has_consumed : List VerificationCode → ℕ → Bool
has_consumed ks i = is_some (find (is_consumed i) ks)

abbrev pub HasEvidence : List VerificationCode → VerificationRequest → Type 0
HasEvidence ks q = is_verified q.status ≡ true → has_consumed ks q.id ≡ true

-- The tables that the invariant reads.
pub record Sound (ks : List VerificationCode) (rs : List PendingRegistration)
    (qs : List VerificationRequest) (cs : List Continuation) (us : List User)
    (ns : List UnsortedCollection) : Type 0 where
  pub registration_ids : Unique (λ r. r.id) rs
  pub request_ids : Unique (λ q. q.id) qs
  pub code_ids : Unique (λ c. c.id) ks
  pub unused : (i : ℕ) → count_where (is_unused i) ks ≤ 1
  pub evidence : All (HasEvidence ks) qs
  pub addresses : (email : Text) → count_where (is_taken email) rs ≤ 1
  pub continuations : All (λ c. is_proven qs c.pending_registration_id ≡ true) cs
  pub accounts : All (λ u. is_grounded rs qs u ≡ true) us
  pub collections : All (HasUnsorted ns) us

-- Registrations, requests and codes are named by one id each, a request has at most one code that
-- can still be used, and a used one once it is verified, an address has at most one pending or
-- completed registration, a continuation's registration was verified, and a user has a completed
-- and verified registration of the same address and exactly one Unsorted collection.
abbrev pub IsSound : Store → Type 0
IsSound st = Sound st.codes st.registrations st.requests st.continuations st.users st.unsorted

-- What a caller may have read of the tables.
abbrev pub has_request : ℕ → ℕ → Store → Bool
has_request i subject st = is_some (
    find (λ q. (q.id == i) && ((q.subject_id == subject) && is_registration q.purpose)) st.requests)

abbrev pub has_address : ℕ → Text → Store → Bool
has_address i email st = is_some (find (λ r. (r.id == i) && text_eq r.email email) st.registrations)

abbrev pub has_continuation : ℕ → ℕ → Store → Bool
has_continuation i subject st =
    is_some (find (λ c. (c.id == i) && (c.pending_registration_id == subject)) st.continuations)

abbrev pub has_code : ℕ → ℕ → Store → Bool
has_code i request st =
    is_some (find (λ c. (c.id == i) && (c.verification_request_id == request)) st.codes)

abbrev pub has_verified : ℕ → Store → Bool
has_verified i st = is_some (find (λ q. (q.id == i) && is_verified q.status) st.requests)

abbrev pub has_completed : ℕ → Store → Bool
has_completed i st = is_some (find (λ r. (r.id == i) && is_completed r.status) st.registrations)

-- A later state: what was read of a row's key columns still holds, and what is
-- verified or completed stays so.
pub record Extends (st s : Store) : Type 0 where
  pub requests : (i j : ℕ) → has_request i j st ≡ true → has_request i j s ≡ true
  pub registrations : (i : ℕ) (e : Text) → has_address i e st ≡ true → has_address i e s ≡ true
  pub codes : (i j : ℕ) → has_code i j st ≡ true → has_code i j s ≡ true
  pub continuations : (i j : ℕ) → has_continuation i j st ≡ true → has_continuation i j s ≡ true
  pub verified : (i : ℕ) → has_verified i st ≡ true → has_verified i s ≡ true
  pub completed : (i : ℕ) → has_completed i st ≡ true → has_completed i s ≡ true

abbrev pub Extends_refl : (st : Store) → Extends st st
Extends_refl st = record {
  requests = λ i j h. h;
  codes = λ i j h. h;
  verified = λ i h. h;
  completed = λ i h. h;
  registrations = λ i e h. h;
  continuations = λ i j h. h;
}

pub Extends_trans : (st s t : Store) → Extends st s → Extends s t → Extends st t
Extends_trans st s t a b = record {
  requests = λ i j h. b.requests i j (a.requests i j h);
  verified = λ i h. b.verified i (a.verified i h);
  completed = λ i h. b.completed i (a.completed i h);
  codes = λ i j h. b.codes i j (a.codes i j h);
  registrations = λ i e h. b.registrations i e (a.registrations i e h);
  continuations = λ i j h. b.continuations i j (a.continuations i j h);
}

abbrev pub Follows : Store → Store → Type 0
Follows st s = IsSound s × Extends st s
