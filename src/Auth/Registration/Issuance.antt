-- ===== src/Auth/Registration/Issuance.antt =====
-- internal/api/auth/registration/service.go: `issueVerificationCode`, which is `CreatePIN` and
-- `ResendVerification` both, over the tables and the two budgets of verification mails.
use stash_it_backend.Base.{
  ◌++◌, ℕ, ◌+◌, Option, none, some, if◌then◌else◌, Result, ok, err, ◌>>=◌, List,
}
use stash_it_backend.Base.Text.{Text, text}
use stash_it_backend.RateLimit.SortedSets.{SortedSets}
use stash_it_backend.RateLimit.Reply.{LimitError, Link}
use stash_it_backend.RateLimit.Sliding.{SlidingVerdict}
use stash_it_backend.Email.{
  PinEmailBudget, SendError, reserve_per_email, reserve_global, refund_global, deliver,
}
use stash_it_backend.Security.VerificationCode.{generate_code, hash_code}
use stash_it_backend.Auth.Registration.{
  Store, RegistrationError, internal, pin_rate_limit_unavailable, pin_rate_limit_exceeded,
  pin_email_budget_unavailable, pin_email_budget_exceeded, pin_email_delivery_failed,
}
use stash_it_backend.Auth.Registration.Statements.{VerificationRow}
use stash_it_backend.Auth.Registration.Meeting.{Meeting}
use stash_it_backend.Auth.Registration.Verification.{read_verification, issue_verification_code}
use stash_it_backend.Auth.Registration.Service.{
  normalize_email, validate_verification_pending, ensure_cooldown_elapsed,
  verification_code_expires_in, verification_resend_cooldown_time,
}

-- The moments, links and members of the calls of Redis, the draw of the code, the id that the
-- insert draws, and what the sender answers.
pub record Issue : Type 0 where
  pub now : ℕ
  pub db_now : ℕ
  pub redis_now : ℕ
  pub email_link : Link
  pub global_link : Link
  pub refund_link : Link
  pub email_member : Option Text
  pub global_member : Option Text
  pub drawn_code : Option ℕ
  pub new_code : ℕ
  pub sent : Option SendError

-- `newVerificationPINEmail`.
pub record Message : Type 0 where
  pub recipient : Text
  pub subject : Text
  pub body : Text

unfoldable pub new_verification_pin_email : Text → Text → Message
new_verification_pin_email recipient pin = record {
  recipient = recipient;
  subject = text "Your registration verification code";
  body = text "Your registration verification code is: " ++ pin;
}

-- `reservePINEmailBudget` and `reserveGlobalPINEmailBudget`, on the limiter's answer.
unfoldable pub answer_per_email :
    Result LimitError SlidingVerdict → Result RegistrationError SlidingVerdict
answer_per_email (err e) = err pin_rate_limit_unavailable
answer_per_email (ok v) = if v.allowed then ok v else err (pin_rate_limit_exceeded v.wait)

unfoldable pub answer_global :
    Result LimitError SlidingVerdict → Result RegistrationError SlidingVerdict
answer_global (err e) = err pin_email_budget_unavailable
answer_global (ok v) = if v.allowed then ok v else err (pin_email_budget_exceeded v.wait)

-- The tables, Redis, and the message that the sender was handed.
pub record World (R : Type 0) : Type 0 where
  pub tables : Store
  pub redis_store : R
  pub handed : Option Message

module _ (redis : SortedSets) (b : PinEmailBudget) (lower : Text → Text)
    (mac : Text → Text → List ℕ) (secret : Text) (d : Meeting) where
  abbrev pub Issued : Type 0
  Issued = Result RegistrationError ℕ × World redis.Store

  -- `Deliver`, and the error that the caller gets.
  unfoldable pub hand_over : Issue → ℕ → SlidingVerdict → Message → Store → redis.Store → Issued
  hand_over x i global message st s =
      let (s', failed) = deliver redis b x.refund_link x.redis_now global x.sent s in
      (
        elim failed [
          | none ↦ ok i
          | some e ↦ err (pin_email_delivery_failed verification_resend_cooldown_time)
        ],
        record { tables = st; redis_store = s'; handed = some message },
      )

  -- Both slots are reserved: a code is drawn, stored and sent.
  unfoldable pub store_and_send :
      Issue → ℕ → VerificationRow → SlidingVerdict → Store → redis.Store → Issued
  unfolding hand_over
  store_and_send x i v global st s =
      let refunded = (refund_global redis b x.refund_link x.redis_now global.admission s).0 in
      elim (generate_code x.drawn_code) [
        | none ↦ (err internal, record { tables = st; redis_store = refunded; handed = none })
        | some code ↦
            let (r, st') =
              issue_verification_code d x.db_now x.new_code i (hash_code mac secret code)
                (x.now + verification_code_expires_in) st in
            elim r [
              | err e ↦ (err e, record { tables = st'; redis_store = refunded; handed = none })
              | ok q ↦
                  hand_over x i global (new_verification_pin_email v.registration.email code) st' s
            ]
      ]

  -- The two reservations, in order.
  unfoldable pub reserve_both :
      Issue → VerificationRow → redis.Store → Result RegistrationError SlidingVerdict × redis.Store
  reserve_both x v s =
      let email = normalize_email lower v.registration.email in
      let (s', r) = reserve_per_email redis b x.email_link x.redis_now x.email_member email s in
      elim (answer_per_email r) [
        | err e ↦ (err e, s')
        | ok _ ↦
            let (s'', g) = reserve_global redis b x.global_link x.redis_now x.global_member s' in
            (answer_global g, s'')
      ]

  unfoldable pub check_issuance : ℕ → ℕ → Store → Result RegistrationError VerificationRow
  check_issuance now i st = do
    v ← read_verification d i st
    validate_verification_pending now v >>= λ _. ensure_cooldown_elapsed now v >>= λ _. ok v

  -- `issueVerificationCode`: others commit after the row was read.
  unfoldable pub issue_code : (meanwhile : Store → Store) → Issue → ℕ → Store → redis.Store → Issued
  unfolding store_and_send reserve_both check_issuance
  issue_code meanwhile x i st s = elim (check_issuance x.now i st) [
    | err e ↦ (err e, record { tables = st; redis_store = s; handed = none })
    | ok v ↦
        let (r, s') = reserve_both x v s in
        elim r [
          | err e ↦ (err e, record { tables = meanwhile st; redis_store = s'; handed = none })
          | ok global ↦ store_and_send x i v global (meanwhile st) s'
        ]
  ]
