-- ===== src/Email/Checks.antt =====
-- internal/email/budget.go: the budget at a store that holds nothing.
use stash_it_backend.Base.{◌≡◌, refl, [], none, some, ok, true, if◌then◌else◌, arith, keep}
use stash_it_backend.Base.Int.{pos}
use stash_it_backend.Base.Text.{Text, text, text_eq_refl}
use stash_it_backend.RateLimit.SortedSets.Memory as Sets
use stash_it_backend.RateLimit.Reply.{delivered, validate, retry_after}
use stash_it_backend.RateLimit.Sliding.{
  SlidingVerdict, sliding_allow, admit_to_sliding_window, window_ms,
}
use stash_it_backend.RateLimit.Sliding.Log.{log_allow}
use stash_it_backend.RateLimit.Sliding.Refinement.{HoldsAt}
use stash_it_backend.Email.{
  PinEmailBudget, new_pin_email_budget, not_attempted, provider_error, global_key, reserve_global,
  deliver,
}
use stash_it_backend.Email.Delivery.{is_spent, deliver-log}

abbrev budget : PinEmailBudget
budget =
    new_pin_email_budget (λ secret subject. subject) (text "secret")
      (record { max = pos 3; window = pos 60000000000 })
      (record { max = pos 2; window = pos 60000000000 })

budget-valid : validate budget.global ≡ none
unfolding validate new_pin_email_budget
budget-valid = refl

nothing_held :
    HoldsAt Sets.memory (window_ms budget.global) 0 (global_key budget) Sets.nothing_stored []
nothing_held = record { past = tt; lasting = tt; covers = λ p h. refl; known = λ m h. tt }

abbrev granted : SlidingVerdict
granted = record { count = 1; allowed = true; wait = 0; admission = some (text "a") }

-- Whatever the key.
first_reservation :
    (k : Text)
    → (sliding_allow Sets.memory delivered 5 k
        (some (text "a"))
        budget.global
        Sets.nothing_stored).1
      ≡ ok granted
unfolding sliding_allow admit_to_sliding_window validate new_pin_email_budget Sets.write keep
    retry_after
first_reservation k = rw (text_eq_refl k) refl

reserved_once :
    (reserve_global Sets.memory budget delivered 5 (some (text "a")) Sets.nothing_stored).1
    ≡ ok granted
unfolding reserve_global
reserved_once = first_reservation (global_key budget)

-- A sender that was never configured.
deliver-log_example :
    HoldsAt Sets.memory
      (window_ms budget.global)
      9
      (global_key budget)
      (deliver Sets.memory budget delivered 9 granted
        (some (not_attempted (provider_error (text "off"))))
        (reserve_global Sets.memory budget delivered 5 (some (text "a")) Sets.nothing_stored).0).0
      (if is_spent (some (not_attempted (provider_error (text "off"))))
        then (log_allow (window_ms budget.global) budget.global.max 5 (text "a") []).0
        else [])
deliver-log_example =
    deliver-log Sets.memory budget 0 5 9 (text "a") Sets.nothing_stored [] granted
      (some (not_attempted (provider_error (text "off")))) budget-valid (omega arith) (omega arith)
      tt nothing_held reserved_once
