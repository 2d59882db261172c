-- ===== src/Auth/Registration/Checks.antt =====
-- internal/api/auth/registration: a registration that was opened, and what calls make of it.
mod Mails
mod Once
use stash_it_backend.Base.{
  ℕ, ◌+◌, ◌≡◌, ◌<◌, ◌≤◌, refl, arith, Bool, true, false, List, [], ◌∷◌, All, length, none, some,
  Result, ok, err, map, find, count_where, update_where, is_some,
}
use stash_it_backend.Base.Text.{Text, text, text_eq}
use stash_it_backend.Base.Int.{pos}
use stash_it_backend.Database.{
  committed, reply_lost, transaction, update_one, attempt, commit, answer, execute,
}
use stash_it_backend.RateLimit.Key.{encode_hex, hex_digit}
use stash_it_backend.RateLimit.SortedSets.Memory as Sets
use stash_it_backend.RateLimit.Reply.{delivered}
use stash_it_backend.Email.{PinEmailBudget, new_pin_email_budget}
use stash_it_backend.Security.VerificationCode.Digits.{IsDigit, decimal_from, generate_code-digits}
use stash_it_backend.Security.VerificationCode.{
  verification_code_length, generate_code, pad_decimal, hash_code, verify_code,
}
use stash_it_backend.Auth.Registration.{
  User, PendingRegistration, VerificationRequest, VerificationCode, Store, manual, pending,
  registration, unverified, RegistrationError, conflict, unnamed,
}
use stash_it_backend.Auth.Registration.Statements.{
  consume_verification_code, mark_request_verified, create_registration_continuation,
  get_registration_continuation, create_user, create_unsorted_collection,
  create_password_credential, consume_registration_continuation, complete_pending_registration,
  ContinuationRow, VerificationRow, get_active_verification_code, get_verification,
}
use stash_it_backend.Auth.Registration.Meeting.{
  Meeting, reads_verification, reads_code, counts_attempt,
}
use stash_it_backend.Auth.Registration.Verification.{
  complete_verification, read_verification, read_active_code,
}
use stash_it_backend.Auth.Registration.Service.{
  validate_continuation, usable_continuation, complete, Completion, pending_verification,
  validate_verification_pending, verify_registration, verification_code_max_attempts,
  registration_continuation_expires_in,
}
use stash_it_backend.Auth.Registration.Operations.{
  Circumstances, Operation, verifies, finalizes, perform, perform_all,
}
use stash_it_backend.Auth.Registration.Finalization.{
  finalize_manual, spend_and_complete, read_continuation, Finalization,
}
use stash_it_backend.Auth.Registration.Accounts.{NewAccount, hashed, finalize_manual_registration}
use stash_it_backend.Auth.Registration.Granted.{right_guess-granted}
use stash_it_backend.Auth.Registration.Soundness.Service.{perform_all-IsSound}
use stash_it_backend.Auth.Registration.Guesses.{guess, guess_all, guesses_run_out}
use stash_it_backend.Auth.Registration.Soundness.{IsSound, Extends_refl}
use stash_it_backend.Auth.Registration.Soundness.Reads.{HasTrusted}

abbrev pub address : Text
address = text "a@b.c"

abbrev pub mac : Text → Text → List ℕ
mac secret code = code

abbrev pub pin : Text
pin = text "123456"

abbrev pub opened : PendingRegistration
opened = record {
  id = 1;
  email = address;
  registration_type = manual;
  status = pending;
  expires_at = 1000000000000;
}

abbrev pub asked : VerificationRequest
asked = record {
  id = 2;
  subject_id = 1;
  purpose = registration;
  status = unverified;
  pin_issued_count = 1;
  last_sent_at = some 10;
}

abbrev pub sent : VerificationCode
sent = record {
  id = 3;
  verification_request_id = 2;
  code_hash = hash_code mac [] pin;
  attempts = 3;
  expires_at = 300;
  consumed_at = none;
  invalidated_at = none;
}

abbrev pub store : Store
store = record {
  registrations = opened ∷ [];
  requests = asked ∷ [];
  codes = sent ∷ [];
  continuations = [];
  users = [];
  unsorted = [];
  credentials = [];
  pending_identities = [];
  identities = [];
}

pub store-IsSound : IsSound store
unfolding find count_where
store-IsSound = record {
  registration_ids = (tt, tt);
  request_ids = (tt, tt);
  code_ids = (tt, tt);
  unused = λ i. ground arith;
  evidence = ((λ h. cc), tt);
  addresses = λ e. ground arith;
  continuations = tt;
  accounts = tt;
  collections = tt;
}

abbrev pub meeting : Meeting
meeting = record { fails = λ q. false; commit_reply = committed; arrivals = λ s. s }

abbrev pub row : VerificationRow
row = record { request = asked; registration = opened }

abbrev pub drawn : Completion
drawn = record { new_continuation = 7; new_registration = 8; drawn_token = some (text "t") }

pub found_pending : pending_verification meeting 20 2 store ≡ ok row
unfolding pending_verification read_verification get_verification validate_verification_pending find
found_pending = refl

pub found_active : read_active_code meeting 20 2 verification_code_max_attempts store ≡ ok sent
unfolding read_active_code get_active_verification_code find
found_active = refl

pub right : verify_code mac [] pin sent.code_hash ≡ true
unfolding verify_code hash_code encode_hex hex_digit text_eq
right = refl

pub wrong : verify_code mac [] (text "000000") sent.code_hash ≡ false
unfolding verify_code hash_code encode_hex hex_digit text_eq
wrong = refl

guesses_run_out_example :
    guess
      (λ t. t)
      mac
      []
      meeting
      20
      20
      drawn
      2
      pin
      (guess_all (λ t. t) mac [] meeting 20 20 drawn 2 (text "000000" ∷ text "000000" ∷ []) store)
    ≡ (
      err (conflict unnamed),
      guess_all (λ t. t) mac [] meeting 20 20 drawn 2 (text "000000" ∷ text "000000" ∷ []) store,
    )
guesses_run_out_example =
    guesses_run_out (λ t. t) mac [] meeting 20 20 drawn 2 (refl, refl, refl)
      (text "000000" ∷ text "000000" ∷ []) store row sent pin store-IsSound found_pending
      found_active (wrong, (wrong, tt)) (omega arith)

right_guess-granted_example :
    (((verify_registration (λ t. t) mac [] meeting (λ s. s) (λ s. s) 20 20 drawn 2 pin store).0)
      ≡ ok (text "t"))
    × ((x : ContinuationRow) × (usable_continuation
            (λ t. t)
            meeting
            30
            (text "t")
            (verify_registration
              (λ t. t)
              mac
              []
              meeting
              (λ s. s)
              (λ s. s)
              20
              20
              drawn
              2
              pin
              store).1
          ≡ ok x)
        × (x.continuation.pending_registration_id ≡ 1)
        × (x.registration ≡ opened))
unfolding find
right_guess-granted_example =
    right_guess-granted (λ t. t) mac [] meeting 20 20 30 2 drawn pin (text "t") store row sent
      (λ q. refl) refl store-IsSound found_pending refl found_active right refl refl (omega arith)
      (omega arith)

pub answered :
    (verify_registration (λ t. t) mac [] meeting (λ s. s) (λ s. s) 20 20 drawn 2 pin store).0
    ≡ ok (text "t")
unfolding find
answered =
    (right_guess-granted (λ t. t) mac [] meeting 20 20 30 2 drawn pin (text "t") store row sent
      (λ q. refl) refl store-IsSound found_pending refl found_active right refl refl (omega arith)
      (omega arith)).0

abbrev pub circumstances : Circumstances
circumstances = record {
  meeting = meeting;
  second_meeting = meeting;
  between = λ s. s;
  before_write = λ s. s;
  now = 20;
  db_now = 20;
}

pub alone : HasTrusted circumstances
alone = record {
  first = λ s sound. (sound, Extends_refl s);
  second = λ s sound. (sound, Extends_refl s);
  between = λ s sound. (sound, Extends_refl s);
  before_write = λ s sound. (sound, Extends_refl s);
}

abbrev pub budget : PinEmailBudget
budget =
    new_pin_email_budget (λ secret subject. subject) (text "secret")
      (record { max = pos 3; window = pos 60000000000 })
      (record { max = pos 2; window = pos 60000000000 })

abbrev pub CallHere : Type 0
CallHere = Operation Sets.memory budget (λ t. t) (λ t. t) mac []

abbrev pub account : NewAccount
account = record { display_name = text "A"; new_user = 11; new_collection = 12 }

-- The right code is given, and the account made.
abbrev pub calls : List CallHere
calls =
    (circumstances, verifies drawn 2 pin)
    ∷ (circumstances, finalizes (text "t") account (hashed (text "h")))
    ∷ []

perform_all-IsSound_example :
    IsSound (perform_all Sets.memory budget (λ t. t) (λ t. t) mac [] calls store)
perform_all-IsSound_example =
    perform_all-IsSound Sets.memory budget (λ t. t) (λ t. t) mac [] calls store (alone, (alone, tt))
      store-IsSound

-- These calls do make an account.
calls-user :
    map
      (λ (u : User). u.email)
      (perform_all Sets.memory budget (λ t. t) (λ t. t) mac [] calls store).users
    ≡ address ∷ []
unfolding perform_all perform verify_registration complete finalize_manual_registration
    pending_verification read_verification get_verification validate_verification_pending find
    read_active_code get_active_verification_code verify_code hash_code encode_hex hex_digit text_eq
    complete_verification transaction update_one attempt commit answer consume_verification_code
    mark_request_verified count_where update_where create_registration_continuation
    usable_continuation read_continuation get_registration_continuation validate_continuation
    finalize_manual spend_and_complete create_user create_unsorted_collection
    create_password_credential consume_registration_continuation complete_pending_registration
calls-user = refl

generate_code-digits_example :
    (length (text "000042") ≡ verification_code_length)
    × All IsDigit (text "000042")
    × (decimal_from 0 (text "000042") ≡ 42)
unfolding generate_code pad_decimal
generate_code-digits_example = generate_code-digits 42 (text "000042") (omega arith) refl
