-- ===== src/RateLimit/Fixed.antt =====
-- internal/ratelimit/limiter.go: the fixed-window limiter, over the commands of Redis.
pub mod Calls
pub mod Window
pub mod Refunds
use stash_it_backend.Base.{
  ℕ, ◌*◌, ◌/◌, ◌≡◌, List, [], ◌∷◌, Bool, true, false, Option, none, some, Result, ok, err,
  if◌then◌else◌,
}
use stash_it_backend.Base.Int.{ℤ, pos, negsuc, is_positive, is_negative, is_one, leb_ℤ, to_ℕ}
use stash_it_backend.Base.Text.{Text}
use stash_it_backend.RateLimit.Redis.{Redis}
use stash_it_backend.RateLimit.Reply.{
  Policy, LimitError, redis_failed, Link, delivered, not_run, reply_lost, validate, second,
  retry_after,
}

-- `Result`: the wait is in nanoseconds.
pub record Verdict : Type 0 where
  pub count : ℤ
  pub allowed : Bool
  pub wait : ℕ

module _ (redis : Redis) where
  open redis use {Store, incr, expire, pttl, key_exists, get, decr}

  -- The script `incrementWithTTL`, in its three parts.
  pub count_one : ℕ → Text → ℕ → Store → Store × ℤ
  count_one now k seconds s =
      let (s', n) = incr now k s in ((if is_one n then expire now k seconds s' else s'), n)

  pub repair_expiry : ℕ → Text → ℕ → Store → Store × ℤ
  repair_expiry now k seconds s =
      let ttl = pttl now k s in
      if is_negative ttl then (expire now k seconds s, pos (seconds * 1000)) else (s, ttl)

  unfoldable pub increment_with_ttl : ℕ → Text → ℕ → Store → Store × (ℤ × ℤ)
  unfolding count_one repair_expiry
  increment_with_ttl now k seconds s =
      let (s', n) = count_one now k seconds s in
      let (s'', ttl) = repair_expiry now k seconds s' in (s'', (n, ttl))

  -- The script `releaseOne`.
  unfoldable pub release_one : ℕ → Text → Store → Store × ℤ
  release_one now k s =
      if key_exists now k s
      then elim (get now k s) [
        | none ↦ (s, pos 0)
        | some current ↦ if leb_ℤ current (pos 0) then (s, pos 0) else decr now k s
      ]
      else (s, pos 0)

  verdict : Policy → ℤ × ℤ → Verdict
  verdict p (n, ttl) = record { count = n; allowed = leb_ℤ n p.max; wait = retry_after ttl }

  -- `Limiter.Allow`, at the key of its namespace and subject.
  unfoldable pub allow : Link → ℕ → Text → Policy → Store → Store × Result LimitError Verdict
  unfolding verdict
  allow link now k p s = elim (validate p) [
    | some e ↦ (s, err e)
    | none ↦
        let (s', reply) = increment_with_ttl now k (to_ℕ p.window / second) s in
        elim link [
          | delivered ↦ (s', ok (verdict p reply))
          | not_run ↦ (s, err redis_failed)
          | reply_lost ↦ (s', err redis_failed)
        ]
  ]

  -- `Limiter.Release`, at the key of its namespace and subject.
  unfoldable pub release : Link → ℕ → Text → Store → Store × Result LimitError Verdict
  release link now k s =
      let (s', count) = release_one now k s in
      elim link [
        | delivered ↦ (s', ok (record { count = count; allowed = true; wait = 0 }))
        | not_run ↦ (s, err redis_failed)
        | reply_lost ↦ (s', err redis_failed)
      ]
