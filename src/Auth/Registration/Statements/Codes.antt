-- ===== src/Auth/Registration/Statements/Codes.antt =====
-- internal/api/auth/registration/queries.sql: the statements on verification codes.
use stash_it_backend.Base.{
  ℕ, ◌+◌, Bool, not, ◌&&◌, ◌||◌, ◌∷◌, none, some, ltb, ◌==◌, if◌then◌else◌, find, update_where,
  count_where, is_some, Result, ok, err,
}
use stash_it_backend.Base.Text.{Text}
use stash_it_backend.Auth.Registration.{
  VerificationCode, Store, unnamed, active_verification_code_exists, RegistrationError, internal,
  conflict,
}
use stash_it_backend.Auth.Registration.Statements.Pending.{Answer, request_with}

-- `verification_codes_one_active_per_request_idx`.
abbrev pub is_unused : ℕ → VerificationCode → Bool
is_unused request c =
    (c.verification_request_id == request)
    && (not (is_some c.consumed_at) && not (is_some c.invalidated_at))

unfoldable pub create_verification_code : ℕ → ℕ → Text → ℕ → Store → Answer VerificationCode
create_verification_code new request hash expires st =
    let c : VerificationCode = record {
      id = new;
      verification_request_id = request;
      code_hash = hash;
      attempts = 0;
      expires_at = expires;
      consumed_at = none;
      invalidated_at = none;
    } in
    if is_some (find (λ c. c.id == new) st.codes)
      || not (is_some (request_with request st.requests))
    then err internal
    else if is_some (find (is_unused request) st.codes)
    then err (conflict active_verification_code_exists)
    else ok (c, record st { codes = c ∷ st.codes })

-- The newest unused code of the request.
unfoldable pub invalidate_verification_code : ℕ → ℕ → Store → Store
invalidate_verification_code now request st = elim (find (is_unused request) st.codes) [
  | none ↦ st
  | some c ↦ record st {
    codes = update_where (λ x. x.id == c.id) (λ x. record x { invalidated_at = some now }) st.codes;
  }
]

abbrev pub is_active : ℕ → ℕ → ℕ → VerificationCode → Bool
is_active now request max c = is_unused request c && (ltb now c.expires_at && ltb c.attempts max)

unfoldable pub get_active_verification_code :
    ℕ → ℕ → ℕ → Store → Result RegistrationError VerificationCode
get_active_verification_code now request max st = elim (find (is_active now request max) st.codes) [
  | none ↦ err (conflict unnamed)
  | some c ↦ ok c
]

abbrev pub has_attempts : ℕ → ℕ → VerificationCode → Bool
has_attempts i max c = (c.id == i) && ltb c.attempts max

unfoldable pub increment_code_attempts : ℕ → ℕ → Store → Answer ℕ
increment_code_attempts i max st = elim (find (has_attempts i max) st.codes) [
  | none ↦ err (conflict unnamed)
  | some c ↦ ok (
    c.attempts + 1,
    record st {
      codes =
          update_where (has_attempts i max) (λ x. record x { attempts = x.attempts + 1 }) st.codes;
    },
  )
]

abbrev pub is_consumable : ℕ → ℕ → VerificationCode → Bool
is_consumable now i c =
    (c.id == i)
    && (not (is_some c.consumed_at) && (not (is_some c.invalidated_at) && ltb now c.expires_at))

unfoldable pub consume_verification_code : ℕ → ℕ → Store → ℕ × Store
consume_verification_code now i st = (
  count_where (is_consumable now i) st.codes,
  record st {
    codes = update_where (is_consumable now i) (λ x. record x { consumed_at = some now }) st.codes;
  },
)
