-- ===== src/Auth/Registration/Once.antt =====
-- internal/api/auth/registration/service.go: a registration, its account, and the calls after it.
use stash_it_backend.Base.{
  ℕ, ◌≡◌, ◌≢◌, ◌∙◌, sym, subst, arith, true, false, List, All, inl, inr, ok, find-updated,
  find-of_is_some, find-of_count, find-pass, Unique-agree, some,
}
use stash_it_backend.Base.Text.{Text}
use stash_it_backend.RateLimit.SortedSets.{SortedSets}
use stash_it_backend.Email.{PinEmailBudget}
use stash_it_backend.Auth.Registration.{PendingRegistration, User, Store, is_completed}
use stash_it_backend.Auth.Registration.Statements.{
  ContinuationRow, registration_with, get_registration_continuation, is_completable,
  complete_pending_registration, consume_registration_continuation,
}
use stash_it_backend.Auth.Registration.Meeting.{Meeting}
use stash_it_backend.Auth.Registration.Finalization.{
  Finalization, finalize_manual, read_continuation,
}
use stash_it_backend.Auth.Registration.Finalized.{IsAccount, finalize_manual-IsOutcome}
use stash_it_backend.Auth.Registration.Service.{usable_continuation, validate_continuation}
use stash_it_backend.Auth.Registration.Accounts.{
  NewAccount, Hashing, hashed, no_capacity, hash_failed, finalization, finalize_manual_registration,
}
use stash_it_backend.Auth.Registration.Operations.{Circumstances, Operation, perform_all}
use stash_it_backend.Auth.Registration.Soundness.{IsSound, has_completed}
use stash_it_backend.Auth.Registration.Soundness.Reads.{HasTrusted}
use stash_it_backend.Auth.Registration.Soundness.Finalizing.{finalize_manual_registration-Follows}
use stash_it_backend.Auth.Registration.Soundness.Service.{perform_all-Trusted}

usable-not_completed :
    (hash_token : Text → Text) (d : Meeting) (now : ℕ) (token : Text) (st : Store)
    (y : ContinuationRow)
    → IsSound st
    → usable_continuation hash_token d now token st ≡ ok y
    → has_completed y.continuation.pending_registration_id st ≡ true
    → ⊥
unfolding usable_continuation read_continuation get_registration_continuation validate_continuation
usable-not_completed hash_token d now token st y sound e h =
    let at : registration_with y.continuation.pending_registration_id st.registrations
        ≡ some y.registration =
      ground arith in
    let (r, hr) = find-of_is_some _ st.registrations h in
    let same : r ≡ y.registration =
      Unique-agree (λ r. r.id) _ _ st.registrations y.registration r sound.registration_ids at hr
        (ground (
          arith,
          find-pass _ st.registrations r hr,
          find-pass _ st.registrations y.registration at,
        )) in
    let off : is_completed y.registration.status ≡ false = ground arith in
    let on : is_completed y.registration.status ≡ true =
      subst (λ (x : PendingRegistration). is_completed x.status ≡ true) same
        (ground (arith, find-pass _ st.registrations r hr)) in
    absurd (on_and_off (sym on ∙ off))
  where
    on_and_off : true ≡ false → ⊥
    on_and_off e = cc

account-completed :
    (d : Meeting) (now : ℕ) (p : Finalization) (password : Text) (st s : Store)
    → IsAccount d now p password st s
    → has_completed p.registration_id s ≡ true
unfolding complete_pending_registration consume_registration_continuation
account-completed d now p password st s a =
    let (y, hy) = find-of_is_some (is_completable now p.registration_id) st.registrations (
      find-of_count (is_completable now p.registration_id) st.registrations (omega (arith, a.1))) in
    let due = find-pass (is_completable now p.registration_id) st.registrations y hy in
    subst (λ s. has_completed p.registration_id s ≡ true) (sym a.2)
      (find-updated _ (is_completable now p.registration_id) _ st.registrations y hy (ground arith))

module _ (hash_token : Text → Text) (d : Meeting) (meanwhile : Store → Store) (now db_now : ℕ)
    (token : Text) (n : NewAccount) (u : User) where
  finalize_manual_registration-completed :
      (h : Hashing) (st : Store) (x : ContinuationRow)
      → usable_continuation hash_token d now token st ≡ ok x
      → (finalize_manual_registration hash_token d meanwhile now db_now token n h st).0 ≡ ok u
      → has_completed x.continuation.pending_registration_id
          (finalize_manual_registration hash_token d meanwhile now db_now token n h st).1
        ≡ true
  unfolding finalize_manual_registration
  finalize_manual_registration-completed (no_capacity wait) st x q e = ground (arith, q, e)
  finalize_manual_registration-completed hash_failed st x q e = ground (arith, q, e)
  finalize_manual_registration-completed (hashed password) st x q e =
      let p = finalization now n x in
      let r = finalize_manual d db_now p password (meanwhile st) in
      elim (finalize_manual-IsOutcome d db_now p password (meanwhile st)) [
        | inl (e', a) ↦
            let done = account-completed d db_now p password (meanwhile st) r.1 a in
            ground (arith, q, e, done)
        | inr ((f, e'), _) ↦ ground (arith, q, e, e')
      ]

module _ (redis : SortedSets) (b : PinEmailBudget) (lower hash_token : Text → Text)
    (mac : Text → Text → List ℕ) (secret : Text) where
  -- A registration becomes at most one account: after a manual registration was finalized, and
  -- after any further calls of the service with any faults and with what others commit, no token
  -- opens a continuation of that registration.
  pub finalized_once :
      (c : Circumstances) (token : Text) (n : NewAccount) (h : Hashing) (u : User)
      (os : List (Operation redis b lower hash_token mac secret)) (st : Store) (x : ContinuationRow)
      (d : Meeting) (now : ℕ) (token' : Text) (y : ContinuationRow)
      → IsSound st
      → HasTrusted c
      → All (λ o. HasTrusted o.0) os
      → usable_continuation hash_token c.meeting c.now token st ≡ ok x
      → let (r, s) =
          finalize_manual_registration hash_token c.meeting c.between c.now c.db_now token n h st in
        r ≡ ok u
        → usable_continuation hash_token d now token'
            (perform_all redis b lower hash_token mac secret os s)
          ≡ ok y
        → y.continuation.pending_registration_id ≢ x.continuation.pending_registration_id
  finalized_once c token n h u os st x d now token' y sound t ts usable answered again same =
      let s =
        (finalize_manual_registration hash_token c.meeting c.between c.now c.db_now token n h
          st).1 in
      let v1 = finalize_manual_registration-Follows c t st sound hash_token token n h in
      let v = perform_all-Trusted redis b lower hash_token mac secret os ts s v1.0 in
      let done =
        finalize_manual_registration-completed hash_token c.meeting c.between c.now c.db_now token n
          u h st x usable answered in
      usable-not_completed hash_token d now token' _ y v.0 again (
        subst (λ i. has_completed i (perform_all redis b lower hash_token mac secret os s) ≡ true)
          (sym same) (v.1.completed _ done))
