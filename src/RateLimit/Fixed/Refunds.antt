-- ===== src/RateLimit/Fixed/Refunds.antt =====
-- internal/ratelimit/limiter.go: what `Release` gives back.
use stash_it_backend.Base.{
  ℕ, suc, ◌+◌, ◌*◌, ◌/◌, ◌≤◌, ◌<◌, ◌≡◌, Option-cases, inl, inr, Option, none, some, if◌then◌else◌,
  arith,
}
use stash_it_backend.Base.Int.{pos, leb_ℤ, to_ℕ, decrement}
use stash_it_backend.Base.Text.{Text}
use stash_it_backend.RateLimit.Redis.{Redis, Counter}
use stash_it_backend.RateLimit.Reply.{Policy, delivered, validate, second}
use stash_it_backend.RateLimit.Fixed.{release_one, allow, release}
use stash_it_backend.RateLimit.Fixed.Window.{allow_from_zero, allow_first, allow_within}

-- A key after a release, by what it was before: one less, and never below zero.
abbrev pub refunded : Option Counter → Option Counter
refunded none = none
refunded (some c) =
    some (if leb_ℤ c.value (pos 0) then c else record c { value = decrement c.value })

module _ (redis : Redis) where
  open redis use {
    Store, view, incr, expire, pttl, key_exists, get, decr, exists_missing, exists_found, get_found,
    decr_view, decr_reply, decr_other, view_later,
  }

  release_found :
      (now : ℕ) (k : Text) (s : Store) (c : Counter)
      → view s now k ≡ some c
      → view (release_one redis now k s).0 now k ≡ refunded (some c)
  unfolding release_one
  release_found now k s c e =
      ground (arith, exists_found s now k c e, get_found s now k c e, decr_view s now k c e)

  release_missing :
      (now : ℕ) (k : Text) (s : Store)
      → view s now k ≡ none
      → view (release_one redis now k s).0 now k ≡ none
  unfolding release_one
  release_missing now k s e = ground (arith, exists_missing s now k e)

  -- A release that reached Redis leaves a missing key missing, leaves a count that is zero or less
  -- as it is, takes exactly one from any other count, and never changes when the window ends.
  pub release-refunded :
      (now : ℕ) (k : Text) (s : Store)
      → view (release redis delivered now k s).0 now k ≡ refunded (view s now k)
  unfolding release
  release-refunded now k s = elim (Option-cases (view s now k)) [
    | inl e ↦ rw e (release_missing now k s e)
    | inr (c, e) ↦ rw e (release_found now k s c e)
  ]

  -- In a window that has counted something, a call and its release later in that window leave the
  -- count and the end of the window as they were.
  pub release-allow :
      (now later n d : ℕ) (k : Text) (p : Policy) (s : Store)
      → validate p ≡ none
      → view s now k ≡ some (record { value = pos (suc n); deadline = some d })
      → now ≤ later
      → later < d
      → view (release redis delivered later k (allow redis delivered now k p s).0).0 later k
        ≡ view s later k
  release-allow now later n d k p s valid e le lt = ground (
    arith,
    (allow_within redis now n d k p s valid e).0,
    view_later s now later k,
    view_later (allow redis delivered now k p s).0 now later k,
    release-refunded later k (allow redis delivered now k p s).0,
  )

  -- A first call, its release, and a further call, all within one window of the first: the window
  -- then ends one window after the further call, and not after the first one.
  pub allow-release_restarts :
      (first back again : ℕ) (k : Text) (p : Policy) (s : Store)
      → validate p ≡ none
      → view s first k ≡ none
      → first ≤ back
      → back ≤ again
      → again < first + to_ℕ p.window / second * 1000
      → let s' = (release redis delivered back k (allow redis delivered first k p s).0).0 in
        view (allow redis delivered again k p s').0 again k
        ≡ some (record { value = pos 1; deadline = some (again + to_ℕ p.window / second * 1000) })
  allow-release_restarts first back again k p s valid e le le' lt =
      let s1 = (allow redis delivered first k p s).0 in
      let s2 = (release redis delivered back k s1).0 in
      ground (
        arith,
        (allow_first redis first k p s valid e).0,
        view_later s1 first back k,
        release-refunded back k s1,
        view_later s2 back again k,
        allow_from_zero redis again (first + to_ℕ p.window / second * 1000) k p s2 valid,
      )
