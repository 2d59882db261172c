-- ===== src/Auth/Registration/Checks/Once.antt =====
-- internal/api/auth/registration/service.go: what can be done once only.
use stash_it_backend.Base.{
  ◌≡◌, ◌≢◌, ◌≤◌, subst, Bool-cases, inl, inr, refl, arith, List, [], ◌∷◌, none, some, Result, ok,
  err, find, count_where, update_where,
}
use stash_it_backend.Base.Text.{Text, text, text_eq, text_eq_sound}
use stash_it_backend.Database.{transaction, attempt, update_one, commit, answer}
use stash_it_backend.RateLimit.SortedSets.Memory as Sets
use stash_it_backend.Auth.Registration.{
  PendingRegistration, VerificationRequest, VerificationCode, Continuation, User, Store,
  RegistrationError, verified,
}
use stash_it_backend.Auth.Registration.Statements.{
  is_taken, ContinuationRow, get_registration_continuation, create_user, create_unsorted_collection,
  create_password_credential, consume_registration_continuation, complete_pending_registration,
}
use stash_it_backend.Auth.Registration.Finalization.{
  Finalization, finalize_manual, spend_and_complete, read_continuation,
}
use stash_it_backend.Auth.Registration.Finalized.{IsOutcome, finalize_manual-IsOutcome}
use stash_it_backend.Auth.Registration.Service.{
  usable_continuation, validate_continuation, verify_registration,
}
use stash_it_backend.Auth.Registration.Issuance.{issue_code}
use stash_it_backend.Auth.Registration.Accounts.{
  AccountError, finalization, hashed, finalize_manual_registration,
}
use stash_it_backend.Auth.Registration.Operations.{finalizes, perform_all}
use stash_it_backend.Auth.Registration.Soundness.{IsSound}
use stash_it_backend.Auth.Registration.Soundness.Final.{verified_once}
use stash_it_backend.Auth.Registration.Once.{finalized_once}
use stash_it_backend.Auth.Registration.Checks.{
  mac, pin, meeting, drawn, circumstances, alone, budget, CallHere, account, store, store-IsSound,
  answered, opened, asked, sent,
}
use stash_it_backend.Auth.Registration.Checks.Mails.{issue}

abbrev afterwards : List CallHere
afterwards = (circumstances, finalizes (text "t") account (hashed (text "h"))) ∷ []

verified_once_example :
    let s =
      perform_all Sets.memory budget
        (λ t. t)
        (λ t. t)
        mac
        []
        afterwards
        (verify_registration (λ t. t) mac [] meeting (λ s. s) (λ s. s) 20 20 drawn 2 pin store).1 in
    ((e : RegistrationError) × (verify_registration
          (λ t. t)
          mac
          []
          meeting
          (λ s. s)
          (λ s. s)
          20
          20
          drawn
          2
          pin
          s
        ≡ (err e, s)))
    × ((issue_code Sets.memory budget
          (λ t. t)
          mac
          []
          meeting
          (λ s. s)
          issue
          2
          s
          Sets.nothing_stored).1.handed
        ≡ none)
verified_once_example =
    verified_once Sets.memory budget (λ t. t) (λ t. t) mac [] circumstances circumstances drawn
      drawn 2 pin pin (text "t") afterwards issue Sets.nothing_stored store store-IsSound alone
      (alone, tt) answered

-- Two verified registrations, each with its continuation.
abbrev other : PendingRegistration
other = record opened { id = 21; email = text "d@e.f" }

abbrev proof : VerificationRequest
proof = record asked { status = verified }

abbrev other_proof : VerificationRequest
other_proof = record proof { id = 22; subject_id = 21 }

abbrev used : VerificationCode
used = record sent { consumed_at = some 15 }

abbrev other_used : VerificationCode
other_used = record used { id = 23; verification_request_id = 22 }

abbrev way : Continuation
way = record {
  id = 7;
  pending_registration_id = 1;
  token_hash = text "t";
  expires_at = 900;
  consumed_at = none;
}

abbrev other_way : Continuation
other_way = record {
  id = 27;
  pending_registration_id = 21;
  token_hash = text "u";
  expires_at = 900;
  consumed_at = none;
}

abbrev two : Store
two = record store {
  registrations = opened ∷ other ∷ [];
  requests = proof ∷ other_proof ∷ [];
  codes = used ∷ other_used ∷ [];
  continuations = way ∷ other_way ∷ [];
}

one_each : (e : Text) → count_where (is_taken e) two.registrations ≤ 1
unfolding count_where text_eq
one_each e = elim (Bool-cases (text_eq opened.email e)) [
  | inl same ↦
      subst (λ e. count_where (is_taken e) two.registrations ≤ 1)
        (text_eq_sound opened.email e same) (omega arith)
  | inr apart ↦ ground (arith, apart)
]

two-IsSound : IsSound two
unfolding find count_where
two-IsSound = record {
  registration_ids = ((refl, tt), (tt, tt));
  request_ids = ((refl, tt), (tt, tt));
  code_ids = ((refl, tt), (tt, tt));
  unused = λ i. ground arith;
  evidence = ((λ h. refl), ((λ h. refl), tt));
  addresses = one_each;
  continuations = (refl, (refl, tt));
  accounts = tt;
  collections = tt;
}

abbrev row_of : Continuation → PendingRegistration → ContinuationRow
row_of c r = record { continuation = c; registration = r }

usable : usable_continuation (λ t. t) meeting 20 (text "t") two ≡ ok (row_of way opened)
unfolding usable_continuation read_continuation get_registration_continuation validate_continuation
    find text_eq
usable = refl

abbrev made : Result AccountError User × Store
made =
    finalize_manual_registration (λ t. t) meeting (λ s. s) 20 20 (text "t") account
      (hashed (text "h")) two

made_user :
    made.0
    ≡ ok (record { id = 11; email = opened.email; display_name = text "A"; email_verified_at = 20 })
unfolding usable_continuation read_continuation get_registration_continuation validate_continuation
    find text_eq finalize_manual_registration finalize_manual spend_and_complete create_user
    create_unsorted_collection create_password_credential consume_registration_continuation
    complete_pending_registration transaction update_one attempt commit answer count_where
    update_where
made_user = refl

still_usable :
    usable_continuation (λ t. t) meeting 20 (text "u") made.1 ≡ ok (row_of other_way other)
unfolding usable_continuation read_continuation get_registration_continuation validate_continuation
    find text_eq finalize_manual_registration finalize_manual spend_and_complete create_user
    create_unsorted_collection create_password_credential consume_registration_continuation
    complete_pending_registration transaction update_one attempt commit answer count_where
    update_where
still_usable = refl

finalized_once_example : other_way.pending_registration_id ≢ way.pending_registration_id
unfolding perform_all
finalized_once_example =
    finalized_once Sets.memory budget (λ t. t) (λ t. t) mac [] circumstances (text "t") account
      (hashed (text "h")) _ [] two (row_of way opened) meeting 20 (text "u")
      (row_of other_way other) two-IsSound alone tt usable made_user still_usable

abbrev asked_for : Finalization
asked_for = finalization 20 account (row_of way opened)

finalize_manual-IsOutcome_example :
    IsOutcome meeting 20 asked_for
      (text "h")
      two
      (finalize_manual meeting 20 asked_for (text "h") two)
finalize_manual-IsOutcome_example = finalize_manual-IsOutcome meeting 20 asked_for (text "h") two
