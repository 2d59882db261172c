-- ===== src/Email.antt =====
-- internal/email/budget.go: the two budgets of verification mails, over the sliding-window limiter,
-- and what a failed delivery gives back.
pub mod Delivery
pub mod Checks
use stash_it_backend.Base.{
  ℕ, Bool, true, false, not, ◌&&◌, ◌||◌, List, Option, none, some, is_some, if◌then◌else◌, Result,
}
use stash_it_backend.Base.Text.{Text, text}
use stash_it_backend.RateLimit.SortedSets.{SortedSets}
use stash_it_backend.RateLimit.Reply.{Policy, LimitError, Link}
use stash_it_backend.RateLimit.Key.{derive_key, sliding_key_prefix}
use stash_it_backend.RateLimit.Sliding.{SlidingVerdict, sliding_allow, sliding_release}

abbrev pub pin_email_budget_namespace : Text
pin_email_budget_namespace = text "pin-email"

abbrev pub pin_email_global_budget_namespace : Text
pin_email_global_budget_namespace = text "pin-email-global"

abbrev pub pin_email_global_subject : Text
pin_email_global_subject = text "application"

-- The limiter's secret and its HMAC are part of the budget here.
pub record PinEmailBudget : Type 0 where
  pub mac : Text → Text → List ℕ
  pub secret : Text
  pub per_email : Policy
  pub global : Policy
  pub global_sub : Text

unfoldable pub new_pin_email_budget :
    (Text → Text → List ℕ) → Text → Policy → Policy → PinEmailBudget
new_pin_email_budget mac secret per_email global = record {
  mac = mac;
  secret = secret;
  per_email = per_email;
  global = global;
  global_sub = pin_email_global_subject;
}

-- An error of a sender: `joined` is `errors.Join`.
pub data SendError : Type 0 where
  not_attempted_marker : SendError
  provider_error : Text → SendError
  joined : SendError → SendError → SendError

-- `errors.Is(err, ErrNotAttempted)`.
unfoldable pub is_not_attempted : SendError → Bool
is_not_attempted not_attempted_marker = true
is_not_attempted (provider_error m) = false
is_not_attempted (joined a b) = is_not_attempted a || is_not_attempted b

unfoldable pub not_attempted : SendError → SendError
not_attempted e = joined not_attempted_marker e

unfoldable pub attempted : Option SendError → Bool
attempted none = false
attempted (some e) = not (is_not_attempted e)

abbrev pub global_key : PinEmailBudget → Text
global_key b =
    derive_key b.mac sliding_key_prefix pin_email_global_budget_namespace b.secret b.global_sub

abbrev pub email_key : PinEmailBudget → Text → Text
email_key b email = derive_key b.mac sliding_key_prefix pin_email_budget_namespace b.secret email

module _ (redis : SortedSets) (b : PinEmailBudget) where
  open redis use {Store}

  -- `ReservePerEmail`.
  unfoldable pub reserve_per_email :
      Link → ℕ → Option Text → Text → Store → Store × Result LimitError SlidingVerdict
  reserve_per_email link now drawn email s =
      sliding_allow redis link now (email_key b email) drawn b.per_email s

  -- `ReserveGlobal`.
  unfoldable pub reserve_global :
      Link → ℕ → Option Text → Store → Store × Result LimitError SlidingVerdict
  reserve_global link now drawn s = sliding_allow redis link now (global_key b) drawn b.global s

  -- `RefundGlobal`.
  unfoldable pub refund_global : Link → ℕ → Option Text → Store → Store × Option LimitError
  refund_global link now none s = (s, none)
  refund_global link now (some a) s = sliding_release redis link now (global_key b) (some a) s

  -- `refund`: a failure is only logged.
  unfoldable pub refund : Link → ℕ → SlidingVerdict → Store → Store
  refund link now global s =
      if is_some global.admission then (refund_global link now global.admission s).0 else s

  -- `Deliver`, by what the sender answered.
  unfoldable pub deliver :
      Link → ℕ → SlidingVerdict → Option SendError → Store → Store × Option SendError
  deliver link now global sent s = elim sent [
    | none ↦ (s, none)
    | some e ↦ if attempted (some e) then (s, some e) else (refund link now global s, some e)
  ]
