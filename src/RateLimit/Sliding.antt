-- ===== src/RateLimit/Sliding.antt =====
-- internal/ratelimit/sliding.go: the sliding-window limiter, over sorted sets in Redis.
--
-- The member that `uuid.NewRandom` draws is an argument; `none` is its failure.
pub mod Log
pub mod Refinement
pub mod Bounds
pub mod Waits
pub mod Refunds
use stash_it_backend.Base.{
  ℕ, ◌+◌, ◌*◌, ◌/◌, ◌≡◌, List, [], ◌∷◌, Bool, true, false, Option, none, some, Result, ok, err,
  if◌then◌else◌,
}
use stash_it_backend.Base.Int.{ℤ, pos, negsuc, is_one, is_negative, leb_ℤ, to_ℕ, sub_ℕ}
use stash_it_backend.Base.Text.{Text}
use stash_it_backend.RateLimit.SortedSets.{SortedSets}
use stash_it_backend.RateLimit.Reply.{
  Policy, LimitError, redis_failed, no_member, Link, delivered, not_run, reply_lost, validate,
  retry_after,
}

-- `SlidingResult`: the wait is in nanoseconds, and an empty admission is `none`.
pub record SlidingVerdict : Type 0 where
  pub count : ℕ
  pub allowed : Bool
  pub wait : ℕ
  pub admission : Option Text

-- `time.Millisecond`, in nanoseconds.
abbrev pub millisecond : ℕ
millisecond = 1000000

-- `policy.Window.Milliseconds()`, of a window that `Validate` let through.
abbrev pub window_ms : Policy → ℕ
window_ms p = to_ℕ p.window / millisecond

-- The wait in the script: the oldest entry's time to leave the window, not below zero.
unfoldable pub script_wait : Option ℕ → ℕ → ℕ → ℕ
script_wait none window now = 0
script_wait (some oldest) window now =
    let retry = sub_ℕ (oldest + window) now in if is_negative retry then 0 else to_ℕ retry

pub sliding_verdict : Text → ℕ × ℤ × ℕ → SlidingVerdict
sliding_verdict member (count, admitted, retry) = record {
  count = count;
  allowed = is_one admitted;
  wait = retry_after (pos retry);
  admission = if is_one admitted then some member else none;
}

module _ (redis : SortedSets) where
  open redis use {Store, zremrangebyscore, zcard, pexpire, zfirst, zadd, key_exists, zrem}

  -- The script's first commands: prune, count, re-arm the expiry.
  pub prune : ℕ → Text → ℕ → Store → Store
  prune now k window s = pexpire now k window (zremrangebyscore now k (sub_ℕ now window) s)

  pub pruned_count : ℕ → Text → ℕ → Store → ℕ
  pruned_count now k window s = zcard now k (zremrangebyscore now k (sub_ℕ now window) s)

  -- The script `admitToSlidingWindow`: its reply is count, admitted and wait.
  unfoldable pub admit_to_sliding_window : ℕ → Text → ℕ → ℤ → Text → Store → Store × (ℕ × ℤ × ℕ)
  unfolding prune pruned_count
  admit_to_sliding_window now k window max member s =
      let count = pruned_count now k window s in
      let s' = prune now k window s in
      if leb_ℤ max (pos count)
      then (s', (count, pos 0, script_wait (zfirst now k s') window now))
      else (zadd now k now member s', (count + 1, pos 1, 0))

  -- The script `refundSlidingWindow`.
  unfoldable pub refund_sliding_window : ℕ → Text → Text → Store → Store
  refund_sliding_window now k member s = if key_exists now k s then zrem now k member s else s

  -- `SlidingLimiter.Allow`, at the key of its namespace and subject.
  unfoldable pub sliding_allow :
      Link → ℕ → Text → Option Text → Policy → Store → Store × Result LimitError SlidingVerdict
  unfolding sliding_verdict
  sliding_allow link now k drawn p s = elim (validate p) [
    | some e ↦ (s, err e)
    | none ↦ elim drawn [
      | none ↦ (s, err no_member)
      | some member ↦
          let (s', reply) = admit_to_sliding_window now k (window_ms p) p.max member s in
          elim link [
            | delivered ↦ (s', ok (sliding_verdict member reply))
            | not_run ↦ (s, err redis_failed)
            | reply_lost ↦ (s', err redis_failed)
          ]
    ]
  ]

  -- `SlidingLimiter.Release`, at the key of its namespace and subject; the result is the error.
  unfoldable pub sliding_release : Link → ℕ → Text → Option Text → Store → Store × Option LimitError
  sliding_release link now k admission s = elim admission [
    | none ↦ (s, none)
    | some member ↦ elim link [
      | delivered ↦ (refund_sliding_window now k member s, none)
      | not_run ↦ (s, some redis_failed)
      | reply_lost ↦ (refund_sliding_window now k member s, some redis_failed)
    ]
  ]
