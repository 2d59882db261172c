-- ===== src/Email/Delivery.antt =====
-- internal/email/budget.go: what a reservation and the delivery after it leave in the budget.
use stash_it_backend.Base.{
  ℕ, ◌≤◌, ◌≡◌, refl, sym, ap, ◌∙◌, Bool, true, Bool-cases, inl, inr, List, Option, none, some,
  if◌then◌else◌, Result, ok, All, count_where,
}
use stash_it_backend.Base.Int.{pos, leb_ℤ}
use stash_it_backend.Base.Text.{Text}
use stash_it_backend.RateLimit.SortedSets.{SortedSets, Entry}
use stash_it_backend.RateLimit.Reply.{LimitError, delivered, validate}
use stash_it_backend.RateLimit.Sliding.{SlidingVerdict, window_ms}
use stash_it_backend.RateLimit.Sliding.Log.{is_live, NotNamed, log_allow}
use stash_it_backend.RateLimit.Sliding.Refinement.{HoldsAt, HoldsAt-later, sliding_allow-log}
use stash_it_backend.RateLimit.Sliding.Refunds.{sliding_release-allow}
use stash_it_backend.Email.{
  PinEmailBudget, SendError, attempted, global_key, reserve_global, refund_global, refund, deliver,
}

-- The slot is spent unless the sender reported that it never tried.
abbrev pub is_spent : Option SendError → Bool
is_spent none = true
is_spent (some e) = attempted (some e)

verdict_eq :
    (v w : SlidingVerdict) → ◌≡◌ {A = Result LimitError SlidingVerdict} (ok v) (ok w) → v ≡ w
verdict_eq v w h = cc

module _ (redis : SortedSets) (b : PinEmailBudget) where
  open redis use {Store}

  module _ (before now later : ℕ) (member : Text) (s : Store) (log : List Entry)
      (v : SlidingVerdict) (valid : validate b.global ≡ none) (le : before ≤ now)
      (le' : now ≤ later) (fresh : All (NotNamed member) log)
      (r : HoldsAt redis (window_ms b.global) before (global_key b) s log)
      (hv : (reserve_global redis b delivered now (some member) s).1 ≡ ok v) where
    abbrev reserved : Store
    reserved = (reserve_global redis b delivered now (some member) s).0

    kept-log :
        HoldsAt redis
          (window_ms b.global)
          later
          (global_key b)
          reserved
          (log_allow (window_ms b.global) b.global.max now member log).0
    unfolding reserve_global
    kept-log =
        let (held, _, _, _, _, _) =
          sliding_allow-log redis before now (global_key b) member b.global s log valid le fresh
            r in
        HoldsAt-later redis (window_ms b.global) now later (global_key b) _ _ le' held

    admission_eq : v.admission ≡ (
        if (log_allow (window_ms b.global) b.global.max now member log).1
        then some member
        else none)
    unfolding reserve_global
    admission_eq =
        let (_, w, e, _, _, a) =
          sliding_allow-log redis before now (global_key b) member b.global s log valid le fresh
            r in
        ap (λ z. z.admission) (verdict_eq v w (sym hv ∙ e)) ∙ a

    refund-log :
        HoldsAt redis
          (window_ms b.global)
          later
          (global_key b)
          (refund redis b delivered later v reserved)
          log
    unfolding refund refund_global reserve_global log_allow
    refund-log =
        elim (Bool-cases
          (leb_ℤ b.global.max (pos (count_where (is_live (window_ms b.global) now) log)))) [
            | inl full ↦
                let none_given : v.admission ≡ none = admission_eq ∙ rw (full, log_allow) refl in
                rw (none_given) (rw (full, log_allow) at kept-log)
            | inr free ↦
                let given : v.admission ≡ some member = admission_eq ∙ rw (free, log_allow) refl in
                rw (given) (
                  sliding_release-allow redis before now later (global_key b) member b.global s log
                    valid le le' fresh r)
          ]

  -- A reservation in the deployment's budget and the delivery after it: the budget stands for the
  -- log with the admission if the message was sent or the provider may have been reached, and for
  -- the log from before if the sender never tried; a refused reservation leaves the log either way.
  pub deliver-log :
      (before now later : ℕ) (member : Text) (s : Store) (log : List Entry) (v : SlidingVerdict)
      (sent : Option SendError)
      → validate b.global ≡ none
      → before ≤ now
      → now ≤ later
      → All (NotNamed member) log
      → HoldsAt redis (window_ms b.global) before (global_key b) s log
      → (reserve_global redis b delivered now (some member) s).1 ≡ ok v
      → HoldsAt redis
          (window_ms b.global)
          later
          (global_key b)
          (deliver redis b delivered later v sent
            (reserve_global redis b delivered now (some member) s).0).0
          (if is_spent sent
            then (log_allow (window_ms b.global) b.global.max now member log).0
            else log)
  unfolding deliver
  deliver-log before now later member s log v none valid le le' fresh r hv =
      kept-log before now later member s log v valid le le' fresh r hv
  deliver-log before now later member s log v (some e) valid le le' fresh r hv =
      elim (Bool-cases (attempted (some e))) [
        | inl q ↦ rw q (kept-log before now later member s log v valid le le' fresh r hv)
        | inr q ↦ rw q (refund-log before now later member s log v valid le le' fresh r hv)
      ]
