-- ===== src/RateLimit/Fixed/Calls.antt =====
-- internal/ratelimit/limiter.go: what one call of the fixed window does to its key.
use stash_it_backend.Base.{
  ℕ, ◌+◌, ◌-◌, ◌*◌, ◌/◌, ◌<◌, ◌≡◌, Option-cases, inl, inr, true, Option, none, some, ok,
  if◌then◌else◌, arith,
}
use stash_it_backend.Base.Int.{ℤ, pos, negsuc, is_one, leb_ℤ, to_ℕ}
use stash_it_backend.Base.Text.{Text}
use stash_it_backend.RateLimit.Redis.{Redis, Counter, incremented, expiring}
use stash_it_backend.RateLimit.Reply.{Policy, Link, delivered, validate, second, retry_after}
use stash_it_backend.RateLimit.Fixed.{count_one, repair_expiry, increment_with_ttl, allow}

-- A key after the first part of the script, by what the key was before it.
unfoldable pub counted : ℕ → ℕ → Option Counter → Counter
counted now seconds o =
    let c = incremented o in if is_one c.value then expiring now seconds c else c

-- A key after the second part, and the window that is left.
unfoldable pub repaired : ℕ → ℕ → Counter → Counter
repaired now seconds c = elim c.deadline [ none ↦ expiring now seconds c | some d ↦ c ]

unfoldable pub window_left : ℕ → ℕ → Counter → ℤ
window_left now seconds c = elim c.deadline [ none ↦ pos (seconds * 1000) | some d ↦ pos (d - now) ]

repaired-deadline :
    (now seconds : ℕ) (c : Counter) → (d : ℕ) × ((repaired now seconds c).deadline ≡ some d)
unfolding repaired
repaired-deadline now seconds c = elim (Option-cases c.deadline) [
  | inl e ↦ (now + seconds * 1000, ground (arith, e))
  | inr (d, e) ↦ (d, ground (arith, e))
]

module _ (redis : Redis) where
  open redis use {
    Store, view, incr, expire, pttl, view_later, incr_view, incr_reply, expire_view, pttl_reply,
    incr_other, expire_other,
  }

  -- An expiry that was just set is not over.
  expire_view_now :
      (s : Store) (now seconds : ℕ) (k : Text) (c : Counter)
      → 0 < seconds
      → view s now k ≡ some c
      → view (expire now k seconds s) now k ≡ some (expiring now seconds c)
  expire_view_now s now seconds k c h e = ground (arith, expire_view s now seconds k c)

  count_one-view :
      (now seconds : ℕ) (k : Text) (s : Store)
      → 0 < seconds
      → (view (count_one redis now k seconds s).0 now k ≡ some (counted now seconds (view s now k)))
        × ((count_one redis now k seconds s).1 ≡ (incremented (view s now k)).value)
  unfolding count_one counted
  count_one-view now seconds k s h = ground (
    arith,
    incr_view s now k,
    incr_reply s now k,
    expire_view_now (incr now k s).0 now seconds k (incremented (view s now k)),
  )

  repair_expiry-view :
      (now seconds : ℕ) (k : Text) (s : Store) (c : Counter)
      → 0 < seconds
      → view s now k ≡ some c
      → (view (repair_expiry redis now k seconds s).0 now k ≡ some (repaired now seconds c))
        × ((repair_expiry redis now k seconds s).1 ≡ window_left now seconds c)
  unfolding repair_expiry repaired window_left
  repair_expiry-view now seconds k s c h e =
      ground (arith, pttl_reply s now k, expire_view_now s now seconds k c)

  script-view :
      (now seconds : ℕ) (k : Text) (s : Store)
      → 0 < seconds
      → (view (increment_with_ttl redis now k seconds s).0 now k
          ≡ some (repaired now seconds (counted now seconds (view s now k))))
        × ((increment_with_ttl redis now k seconds s).1 ≡ (
          (incremented (view s now k)).value,
          window_left now seconds (counted now seconds (view s now k)),
        ))
  unfolding increment_with_ttl
  script-view now seconds k s h = ground (
    arith,
    count_one-view now seconds k s h,
    repair_expiry-view now seconds k (count_one redis now k seconds s).0
        (counted now seconds (view s now k)) h,
  )

  -- No call touches the budget of another key.
  script_other :
      (now later seconds : ℕ) (k j : Text) (s : Store)
      → (k ≡ j → ⊥)
      → view (increment_with_ttl redis now k seconds s).0 later j ≡ view s later j
  unfolding increment_with_ttl count_one repair_expiry
  script_other now later seconds k j s h = ground (
    arith,
    incr_other s now later k j h,
    expire_other (incr now k s).0 now later seconds k j h,
    expire_other (count_one redis now k seconds s).0 now later seconds k j h,
  )

  window_seconds : (p : Policy) → validate p ≡ none → 0 < to_ℕ p.window / second
  unfolding validate
  window_seconds p h = window_positive p.window (ground arith)
    where
      window_positive : (w : ℤ) → leb_ℤ (pos second) w ≡ true → 0 < to_ℕ w / second
      window_positive (pos w) h = ground arith
      window_positive (negsuc w) h = cc

  -- A call that reaches Redis under a valid policy, as its effect on the key and its verdict.
  pub allow-view :
      (now : ℕ) (k : Text) (p : Policy) (s : Store)
      → validate p ≡ none
      → let seconds = to_ℕ p.window / second in
        let c = counted now seconds (view s now k) in
        (view (allow redis delivered now k p s).0 now k ≡ some (repaired now seconds c))
        × ((allow redis delivered now k p s).1
            ≡ ok (record {
              count = (incremented (view s now k)).value;
              allowed = leb_ℤ (incremented (view s now k)).value p.max;
              wait = retry_after (window_left now seconds c);
            }))
  unfolding allow
  allow-view now k p s valid =
      ground (arith, script-view now (to_ℕ p.window / second) k s (window_seconds p valid))

  -- A call never changes what is stored under another key, whether it reaches Redis or not.
  pub allow_other :
      (link : Link) (now later : ℕ) (k j : Text) (p : Policy) (s : Store)
      → (k ≡ j → ⊥)
      → view (allow redis link now k p s).0 later j ≡ view s later j
  unfolding allow
  allow_other link now later k j p s h =
      ground (arith, script_other now later (to_ℕ p.window / second) k j s h)

  pub view-alive :
      (s : Store) (now : ℕ) (k : Text) (c : Counter) (d : ℕ)
      → view s now k ≡ some c
      → c.deadline ≡ some d
      → now < d
  view-alive s now k c d e f = ground (arith, view_later s now now k)

  -- After a call that reached Redis the counter has an expiry that is still ahead, whatever was
  -- stored before, a counter with no expiry included.
  pub allow_expires :
      (now : ℕ) (k : Text) (p : Policy) (s : Store)
      → validate p ≡ none
      → (c : Counter) × (d : ℕ) × (view (allow redis delivered now k p s).0 now k ≡ some c)
        × (c.deadline ≡ some d)
        × (now < d)
  allow_expires now k p s valid =
      let seconds = to_ℕ p.window / second in
      let c = repaired now seconds (counted now seconds (view s now k)) in
      let found = (allow-view now k p s valid).0 in
      let (d, e) = repaired-deadline now seconds (counted now seconds (view s now k)) in
      (c, d, found, e, view-alive _ now k c d found e)
