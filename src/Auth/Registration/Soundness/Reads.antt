-- ===== src/Auth/Registration/Soundness/Reads.antt =====
-- internal/api/auth/registration/service.go: what the rows that a call reads say of the tables, and
-- what is asked of others.
use stash_it_backend.Base.{
  ℕ, ◌≡◌, arith, true, ◌==◌, ==_refl, some, find, find-found, find-pass, ==_iff, ok,
}
use stash_it_backend.Base.Text.{Text, text_eq, text_eq_refl}
use stash_it_backend.Auth.Registration.{Store, VerificationCode, is_registration}
use stash_it_backend.Auth.Registration.Statements.{
  VerificationRow, ContinuationRow, get_verification, get_registration_continuation, is_active,
  get_active_verification_code,
}
use stash_it_backend.Auth.Registration.Meeting.{Meeting}
use stash_it_backend.Auth.Registration.Verification.{read_verification, read_active_code}
use stash_it_backend.Auth.Registration.Finalization.{read_continuation}
use stash_it_backend.Auth.Registration.Service.{pending_verification, usable_continuation}
use stash_it_backend.Auth.Registration.Operations.{Circumstances}
use stash_it_backend.Auth.Registration.Soundness.Facts.{
  has_request, has_address, has_code, has_continuation,
}
use stash_it_backend.Auth.Registration.Soundness.Opening.{Trusted}

-- Others do not break the invariant, and do not take back what was read.
pub record HasTrusted (c : Circumstances) : Type 0 where
  pub first : Trusted c.meeting.arrivals
  pub second : Trusted c.second_meeting.arrivals
  pub between : Trusted c.between
  pub before_write : Trusted c.before_write

-- What a row of `GetVerification` says of its request.
pub read_verification-has_request :
    (d : Meeting) (i : ℕ) (st : Store) (v : VerificationRow)
    → read_verification d i st ≡ ok v
    → is_registration v.request.purpose ≡ true
    → has_request v.request.id v.request.subject_id st ≡ true
unfolding read_verification get_verification
read_verification-has_request d i st v e p =
    let at : find (λ q. q.id == i) st.requests ≡ some v.request = ground arith in
    find-found _ _ st.requests v.request at
      (ground (arith, ==_refl v.request.id, ==_refl v.request.subject_id))

pub pending_verification-row :
    (d : Meeting) (now i : ℕ) (st : Store) (v : VerificationRow)
    → pending_verification d now i st ≡ ok v
    → read_verification d i st ≡ ok v
unfolding pending_verification
pending_verification-row d now i st v e = ground arith

-- What a row of `GetRegistrationContinuation` says of its two rows.
pub usable_continuation-has :
    (hash_token : Text → Text) (d : Meeting) (now : ℕ) (token : Text) (st : Store)
    (x : ContinuationRow)
    → usable_continuation hash_token d now token st ≡ ok x
    → (has_continuation x.continuation.id x.continuation.pending_registration_id st ≡ true)
      × (has_address x.continuation.pending_registration_id x.registration.email st ≡ true)
unfolding usable_continuation read_continuation get_registration_continuation
usable_continuation-has hash_token d now token st x e =
    let row : get_registration_continuation (hash_token token) st ≡ some x = ground arith in
    let found_c : find (λ c. text_eq c.token_hash (hash_token token)) st.continuations
        ≡ some x.continuation =
      ground arith in
    let found_r : find (λ r. r.id == x.continuation.pending_registration_id) st.registrations
        ≡ some x.registration =
      ground arith in
    let named = find-pass _ st.registrations x.registration found_r in
    (
      find-found _ _ st.continuations x.continuation found_c (
          ground
            (arith, ==_refl x.continuation.id, ==_refl x.continuation.pending_registration_id)),
      find-found _ _ st.registrations x.registration found_r
          (ground (arith, text_eq_refl x.registration.email)),
    )

pub read_verification-id :
    (d : Meeting) (i : ℕ) (st : Store) (v : VerificationRow)
    → read_verification d i st ≡ ok v
    → v.request.id ≡ i
unfolding read_verification get_verification
read_verification-id d i st v e =
    let at : find (λ q. q.id == i) st.requests ≡ some v.request = ground arith in
    (==_iff v.request.id i).0 (find-pass _ st.requests v.request at)

-- What `GetActiveVerificationCode` says of the code.
pub read_active_code-has_code :
    (d : Meeting) (now i max : ℕ) (st : Store) (c : VerificationCode)
    → read_active_code d now i max st ≡ ok c
    → has_code c.id i st ≡ true
unfolding read_active_code get_active_verification_code
read_active_code-has_code d now i max st c e =
    let at : find (is_active now i max) st.codes ≡ some c = ground arith in
    let due = find-pass (is_active now i max) st.codes c at in
    find-found _ (is_active now i max) st.codes c at (ground (arith, ==_refl c.id))
