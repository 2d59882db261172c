-- ===== src/RateLimit/Reply.antt =====
-- internal/ratelimit/limiter.go: a policy's checks, the wait that a client is told, and how the
-- call of a script can end.
use stash_it_backend.Base.{
  ℕ, ◌+◌, ◌*◌, ◌/◌, ◌≤◌, ◌<◌, ◌≡◌, Option, none, some, if◌then◌else◌, arith, leb,
}
use stash_it_backend.Base.Int.{ℤ, pos, negsuc, leb_ℤ}

-- `time.Second`, in the nanoseconds of a `time.Duration`.
abbrev pub second : ℕ
second = 1000000000

pub data LimitError : Type 0 where
  max_not_positive window_too_short redis_failed no_member no_client : LimitError

-- `Max` and `Window` are signed in the source.
pub record Policy : Type 0 where
  pub max : ℤ
  pub window : ℤ

-- `Policy.Validate`, and `SlidingPolicy.Validate`, which makes the same checks.
unfoldable pub validate : Policy → Option LimitError
validate p =
    if leb_ℤ p.max (pos 0)
    then some max_not_positive
    else if leb_ℤ (pos second) p.window
    then none
    else some window_too_short

-- A millisecond remainder as the wait for a client, in whole seconds, rounded up.
unfoldable pub retry_after : ℤ → ℕ
retry_after (pos ms) = if leb ms 0 then 0 else ((ms + 999) / 1000) * second
retry_after (negsuc n) = 0

-- How the call of a script ends for the client: with its reply, or with an error, before the script
-- ran or after it.
pub data Link : Type 0 where
  delivered not_run reply_lost : Link

-- The wait covers the remainder, by less than a second, and is a whole number of seconds.
pub retry_after_ceiling :
    (ms : ℕ)
    → (ms * 1000000 ≤ retry_after (pos ms))
      × (retry_after (pos ms) < ms * 1000000 + second)
      × (retry_after (pos ms) / second * second ≡ retry_after (pos ms))
unfolding retry_after
retry_after_ceiling ms = ground arith
