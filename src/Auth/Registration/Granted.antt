-- ===== src/Auth/Registration/Granted.antt =====
-- internal/api/auth/registration/service.go: the answer to the right code.
use stash_it_backend.Base.{
  ℕ, ◌+◌, ◌<◌, ◌≡◌, refl, sym, subst, arith, true, false, ◌||◌, List, ◌∷◌, none, some, Result, ok,
  find, find-pass, is_some, ◌==◌, ==_refl, ==_iff, found_again, count_where-Unique,
}
use stash_it_backend.Base.Text.{Text, text_eq, text_eq_refl}
use stash_it_backend.Database.{committed, transaction, update_one, attempt, commit}
use stash_it_backend.Security.VerificationCode.{verify_code}
use stash_it_backend.Auth.Registration.{
  VerificationCode, Continuation, Store, RegistrationError, is_registration,
}
use stash_it_backend.Auth.Registration.Statements.{
  VerificationRow, ContinuationRow, is_active, get_active_verification_code, get_verification,
  is_consumable, consume_verification_code, is_open_request, mark_request_verified,
  create_registration_continuation, registration_with, get_registration_continuation,
}
use stash_it_backend.Auth.Registration.Meeting.{
  Meeting, Statement, begins, consumes_code, marks_verified, reads_continuation,
  creates_continuation,
}
use stash_it_backend.Auth.Registration.Verification.{
  read_verification, read_active_code, complete_verification,
}
use stash_it_backend.Auth.Registration.Finalization.{read_continuation}
use stash_it_backend.Auth.Registration.Service.{
  Completion, pending_verification, complete, verify_registration, validate_verification_pending,
  verification_code_max_attempts, registration_continuation_expires_in, usable_continuation,
  validate_continuation,
}
use stash_it_backend.Auth.Registration.Soundness.{IsSound}

module _ (d : Meeting) (works : (q : Statement) → d.fails q ≡ false)
    (replies : d.commit_reply ≡ committed) (now db_now i : ℕ) (st : Store) (sound : IsSound st)
    (v : VerificationRow) (c : VerificationCode) (pending : pending_verification d now i st ≡ ok v)
    (active : read_active_code d db_now i verification_code_max_attempts st ≡ ok c) where
  consumed_one : (consume_verification_code db_now c.id st).0 ≡ 1
  unfolding consume_verification_code read_active_code get_active_verification_code
  consumed_one =
      let found : find (is_active db_now i verification_code_max_attempts) st.codes ≡ some c =
        ground arith in
      let due = find-pass (is_active db_now i verification_code_max_attempts) st.codes c found in
      count_where-Unique (λ c. c.id) (is_consumable db_now c.id) st.codes c sound.code_ids
        (found_again (λ c. c.id) _ (is_consumable db_now c.id) st.codes c sound.code_ids found
          (ground (arith, ==_refl c.id)) (λ x h. ground arith))
        (λ x h. ground arith)

  request_row : find (λ q. q.id == i) st.requests ≡ some v.request
  unfolding pending_verification read_verification get_verification
  request_row = ground arith

  registration_row : registration_with v.request.subject_id st.registrations ≡ some v.registration
  unfolding pending_verification read_verification get_verification
  registration_row = ground arith

  marked_one :
      (mark_request_verified v.request.id (consume_verification_code db_now c.id st).1).0 ≡ 1
  unfolding consume_verification_code mark_request_verified pending_verification
      validate_verification_pending
  marked_one =
      let open_one : is_open_request v.request.id v.request ≡ true =
        ground (arith, ==_refl v.request.id) in
      count_where-Unique (λ q. q.id) (is_open_request v.request.id) st.requests v.request
        sound.request_ids
        (found_again (λ q. q.id) _ (is_open_request v.request.id) st.requests v.request
          sound.request_ids request_row open_one (λ x h. ground arith))
        (λ x h. ground arith)

  module _ (new : ℕ) (hash : Text) (expires_at : ℕ)
      (fresh : is_some (
          find
            (λ x.
              (x.id == new)
              || ((x.pending_registration_id == v.request.subject_id) || text_eq x.token_hash hash))
            st.continuations)
        ≡ false) where
    abbrev opened : Continuation
    opened = record {
      id = new;
      pending_registration_id = v.request.subject_id;
      token_hash = hash;
      expires_at = expires_at;
      consumed_at = none;
    }

    granted : Store
    granted =
        let s =
          (mark_request_verified v.request.id (consume_verification_code db_now c.id st).1).1 in
        record s { continuations = opened ∷ s.continuations }

    created :
        create_registration_continuation new v.request.subject_id hash expires_at
          (mark_request_verified v.request.id (consume_verification_code db_now c.id st).1).1
        ≡ ok (opened, granted)
    unfolding create_registration_continuation consume_verification_code mark_request_verified
        granted
    created = ground (arith, registration_row, fresh)

    complete_verification-granted :
        complete_verification d db_now new c.id v.request.id v.request.subject_id hash expires_at st
        ≡ (ok opened, granted)
    unfolding complete_verification transaction update_one attempt commit
    complete_verification-granted =
        let first : ((consume_verification_code db_now c.id st).0 == 1) ≡ true =
          (==_iff _ _).1 consumed_one in
        let second : ((mark_request_verified v.request.id
                (consume_verification_code db_now c.id st).1).0
              == 1)
            ≡ true =
          (==_iff _ _).1 marked_one in
        rw
          (
            works begins,
            works consumes_code,
            works marks_verified,
            works creates_continuation,
            replies,
            first,
            second,
            created,
          )
          refl

    granted-usable :
        (hash_token : Text → Text) (t : ℕ) (token : Text)
        → hash_token token ≡ hash
        → t < expires_at
        → t < v.registration.expires_at
        → usable_continuation hash_token d t token granted
          ≡ ok (record { continuation = opened; registration = v.registration })
    unfolding usable_continuation read_continuation get_registration_continuation
        validate_continuation granted consume_verification_code mark_request_verified find
        pending_verification validate_verification_pending
    granted-usable hash_token t token same early early' =
        let at : text_eq hash (hash_token token) ≡ true = rw same (text_eq_refl hash) in
        let reads = works reads_continuation in
        let row = registration_row in ground (arith, at, reads, row, pending)

-- The right code of a request whose purpose is a registration, not a recovery, given while the
-- request is pending and the code active, answers with a token, provided that nothing fails, no
-- other transaction interferes, the tables satisfy their invariant, the registration has no
-- continuation yet, and the drawn id and the hash of the drawn token are new: the token then opens
-- the continuation of the registration that the request is for, while neither has expired.
pub right_guess-granted :
    (hash_token : Text → Text) (mac : Text → Text → List ℕ) (secret : Text) (d : Meeting)
    (now db_now t i : ℕ) (new : Completion) (pin token : Text) (st : Store) (v : VerificationRow)
    (c : VerificationCode)
    → ((q : Statement) → d.fails q ≡ false)
    → d.commit_reply ≡ committed
    → IsSound st
    → pending_verification d now i st ≡ ok v
    → is_registration v.request.purpose ≡ true
    → read_active_code d db_now i verification_code_max_attempts st ≡ ok c
    → verify_code mac secret pin c.code_hash ≡ true
    → new.drawn_token ≡ some token
    → is_some (
        find
          (λ x.
            (x.id == new.new_continuation)
            || ((x.pending_registration_id == v.request.subject_id)
                || text_eq x.token_hash (hash_token token)))
          st.continuations)
      ≡ false
    → t < now + registration_continuation_expires_in
    → t < v.registration.expires_at
    → let (r, s) =
        verify_registration hash_token mac secret d (λ s. s) (λ s. s) now db_now new i pin st in
      (r ≡ ok token)
      × ((x : ContinuationRow) × (usable_continuation hash_token d t token s ≡ ok x)
          × (x.continuation.pending_registration_id ≡ v.request.subject_id)
          × (x.registration ≡ v.registration))
unfolding verify_registration complete
right_guess-granted hash_token mac secret d now db_now t i new pin token st v c works replies sound
      pending purpose active right drawn fresh early early' =
    let expires_at = now + registration_continuation_expires_in in
    let done =
      complete_verification-granted d works replies now db_now i st sound v c pending active
        new.new_continuation (hash_token token) expires_at fresh in
    let usable =
      granted-usable d works replies now db_now i st sound v c pending active new.new_continuation
        (hash_token token) expires_at fresh hash_token t token refl early early' in
    let same : verify_registration hash_token mac secret d (λ s. s) (λ s. s) now db_now new i pin st
        ≡ (
          ok token,
          granted d works replies now db_now i st sound v c pending active new.new_continuation
              (hash_token token) expires_at fresh,
        ) =
      ground (arith, pending, active, right, drawn, purpose, done) in
    subst
      (λ (x : Result RegistrationError Text × Store).
        (x.0 ≡ ok token)
        × ((y : ContinuationRow) × (usable_continuation hash_token d t token x.1 ≡ ok y)
            × (y.continuation.pending_registration_id ≡ v.request.subject_id)
            × (y.registration ≡ v.registration)))
      (sym same) (refl, (_, usable, refl, refl))
